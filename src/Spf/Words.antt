-- ===== src/Spf/Words.antt =====
-- The merged record word by word.
use dns_entree.Base.{
  ◌+◌, Bool, true, false, not, List, [], ◌∷◌, ◌++◌, map, arith, if◌then◌else◌, ◌≡◌, ◌≢◌, refl, ap,
  ◌∙◌, select, any, length, All, All-append, All-map, All-image, Bool-cases, inl, inr, ◌⊎◌,
  cons-ne-nil,
}
use dns_entree.Text.{
  Bytes, codes, space, to_lower, has_prefix, str_eq, fields, contains, join, fields-append-space,
  fields-join, fields_word, IsWord,
}
use dns_entree.Spf.Merge.{include_of, additions, insert_all, extend}
use dns_entree.Text.{is_space}
use dns_entree.Spf.Count.{count_words, count_lookups, count_words-append, is_lookup}
use dns_entree.Spf.Splice.{Spliced, insert_all-Spliced}

-- The words of an extended record: those of the record in their order, with the added words
-- between two parts of them; a record with no place for them gets ` -all` at its end.
pub record WordsKept (old new extra : List Bytes) : Type 0 where
  pub before : List Bytes
  pub after : List Bytes
  pub new_words : new ≡ before ++ (extra ++ after)
  pub old_words : (old ≡ before ++ after) ⊎ ((old ≡ before) × (after ≡ codes "-all" ∷ []))

dash_all-IsWord : IsWord (codes "-all")
unfolding is_space
dash_all-IsWord = (cons-ne-nil _ _, (refl, (refl, (refl, (refl, tt)))))

Spliced-words :
    {t : Bytes} {extra : List Bytes} (sp : Spliced t extra)
    → All IsWord extra
    → WordsKept (fields t) (fields (insert_all t extra)) extra
Spliced-words {t} {extra} sp w = record {
  before = fields sp.front;
  after = fields sp.rest;
  new_words = rw (
    sp.value,
    fields-append-space sp.front (join extra (space ∷ []) ++ space ∷ sp.rest),
    fields-append-space (join extra (space ∷ [])) sp.rest,
    fields-join extra w,
  );
  old_words = elim sp.source [
    | inl e ↦ inl (ap fields e ∙ fields-append-space sp.front sp.rest)
    | inr (e, r) ↦ inr (ap fields e, ap fields r ∙ fields_word (codes "-all") dash_all-IsWord)
  ];
}

-- A domain that can stand in a word.
abbrev pub IsDomain : Bytes → Type 0
IsDomain = All (λ c. is_space c ≡ false)

pub IsDomain-of_test : (s : Bytes) → any is_space s ≡ false → IsDomain s
IsDomain-of_test [] h = tt
IsDomain-of_test (c ∷ s) h = (ground arith, IsDomain-of_test s (ground arith))

pub include_of-IsWord : (inc : Bytes) → IsDomain inc → IsWord (include_of inc)
include_of-IsWord inc h = (
  cons-ne-nil _ _,
  All-append (λ c. is_space c ≡ false) (codes "include:") inc
      (unfold is_space in (refl, (refl, (refl, (refl, (refl, (refl, (refl, (refl, tt))))))))) h,
)

module _ (P : Bytes → Type 0) (p : Bytes → Bool) where
  select_step :
      (x : Bytes) (rest : List Bytes) (b : Bool)
      → P x
      → All P rest
      → All P (if b then x ∷ rest else rest)
  select_step x rest true px h = (px, h)
  select_step x rest false px h = h

  select-All : (xs : List Bytes) → All P xs → All P (select p xs)
  select-All [] _ = tt
  select-All (x ∷ xs) (px, h) = select_step x (select p xs) (p x) px (select-All xs h)

pub additions-words :
    (t : Bytes) (includes : List Bytes) → All IsDomain includes → All IsWord (additions t includes)
unfolding additions
additions-words t includes h =
    select-All IsWord (λ m. not (contains t m)) (map include_of includes)
      (All-image include_of IsWord includes (All-map include_of-IsWord includes h))

-- Where the includes can stand in a word and one of them is lacking, an extended record keeps every
-- word that it had, in order, and the includes that it lacked stand together in it.
pub extend-WordsKept :
    (t : Bytes) (includes : List Bytes)
    → All IsDomain includes
    → additions t includes ≢ []
    → WordsKept (fields t) (fields (extend t (additions t includes)).value) (additions t includes)
extend-WordsKept t includes h n = cases (additions t includes) n (additions-words t includes h)
  where
    cases :
        (extra : List Bytes)
        → extra ≢ []
        → All IsWord extra
        → WordsKept (fields t) (fields (extend t extra).value) extra
    cases [] n w = absurd (n refl)
    cases (a ∷ extra) n w = unfold extend in Spliced-words (insert_all-Spliced t (a ∷ extra)) w

include_counts : (inc : Bytes) → is_lookup (to_lower (include_of inc)) ≡ true
unfolding is_lookup to_lower has_prefix str_eq
include_counts inc = refl

count-additions :
    (p : Bytes → Bool) (includes : List Bytes)
    → count_words (select p (map include_of includes)) ≡ length (select p (map include_of includes))
unfolding count_words
count-additions p [] = refl
count-additions p (i ∷ is) = elim (Bool-cases (p (include_of i))) [
  | inl y ↦ rw (y, include_counts i) (omega (arith, count-additions p is))
  | inr n ↦ rw n (count-additions p is)
]

dash_all-count : count_words (codes "-all" ∷ []) ≡ 0
unfolding count_words is_lookup to_lower has_prefix str_eq
dash_all-count = refl

WordsKept-count :
    {old new extra : List Bytes}
    → WordsKept old new extra
    → count_words new ≡ count_words old + count_words extra
WordsKept-count {old} {new} {extra} k =
    let total : count_words new ≡ count_words k.before + (count_words extra + count_words k.after) =
      rw
        (
          k.new_words,
          count_words-append k.before (extra ++ k.after),
          count_words-append extra k.after,
        )
        refl in
    elim k.old_words [
      | inl e ↦ omega (arith, total, ap count_words e, count_words-append k.before k.after)
      | inr (e, r) ↦ omega (arith, total, ap count_words e, ap count_words r, dash_all-count)
    ]

-- Where the includes can stand in a word, every include that is added costs exactly one more lookup,
-- and nothing else changes the surface count.
pub extend-lookups :
    (t : Bytes) (includes : List Bytes)
    → All IsDomain includes
    → count_lookups (extend t (additions t includes)).value
      ≡ count_lookups t + length (additions t includes)
unfolding count_lookups
extend-lookups t includes h =
    cases (additions t includes) (additions-words t includes h)
      (unfold additions in count-additions (λ m. not (contains t m)) includes)
  where
    cases :
        (extra : List Bytes)
        → All IsWord extra
        → count_words extra ≡ length extra
        → count_words (fields (extend t extra).value) ≡ count_words (fields t) + length extra
    cases [] w c = unfold extend in omega arith
    cases (a ∷ extra) w c =
        unfold extend in
        (WordsKept-count (Spliced-words (insert_all-Spliced t (a ∷ extra)) w)
          ∙ ap (λ n. count_words (fields t) + n) c)
