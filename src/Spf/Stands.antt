-- ===== src/Spf/Stands.antt =====
-- MergeSPF of spf.go, word by word: which includes stand in the merged record.
use dns_entree.Base.{
  Bool, true, false, not, List, [], ◌∷◌, ◌++◌, map, arith, if◌then◌else◌, ◌≡◌, refl, sym, ap, subst,
  select, All, All-append, All-map, All-image, All-preimage, Bool-cases, inl, inr, ◌⊎◌, cons-ne-nil,
  drop, length,
}
use dns_entree.Text.{
  Bytes, codes, has_prefix, has_prefix_rest, to_lower, contains, index, fields, fields-join, IsWord,
  is_space, trim_space,
}
use dns_entree.Spf.Merge.{
  Merged, include_of, build_fresh, additions, extend, version, merge_trimmed, merge_value,
}
use dns_entree.Spf.Contents.{merge_cases}
use dns_entree.Spf.Words.{IsDomain, include_of-IsWord, extend-WordsKept}

abbrev pub IsAmong : Bytes → List Bytes → Type 0
IsAmong w [] = ⊥
IsAmong w (x ∷ xs) = (x ≡ w) ⊎ IsAmong w xs

-- The bytes stand somewhere in the text, within a word or across words.
abbrev pub IsWithin : Bytes → Bytes → Type 0
IsWithin m t = (front : Bytes) × (rest : Bytes) × (t ≡ front ++ (m ++ rest))

within : (t m : Bytes) → contains t m ≡ true → IsWithin m t
unfolding contains index
within [] m h = ([], drop (length m) [], has_prefix_rest [] m (ground (arith, h)))
within (c ∷ t) m h = elim (Bool-cases (has_prefix (c ∷ t) m)) [
  | inl y ↦ ([], drop (length m) (c ∷ t), has_prefix_rest (c ∷ t) m y)
  | inr n ↦
      let (front, rest, e) = within t m (ground (arith, h, n)) in
      (c ∷ front, rest, ap (λ x. c ∷ x) e)
]

IsAmong-left : (w : Bytes) (xs ys : List Bytes) → IsAmong w xs → IsAmong w (xs ++ ys)
IsAmong-left w [] ys h = absurd h
IsAmong-left w (x ∷ xs) ys (inl e) = inl e
IsAmong-left w (x ∷ xs) ys (inr h) = inr (IsAmong-left w xs ys h)

IsAmong-right : (w : Bytes) (xs ys : List Bytes) → IsAmong w ys → IsAmong w (xs ++ ys)
IsAmong-right w [] ys h = h
IsAmong-right w (x ∷ xs) ys h = inr (IsAmong-right w xs ys h)

All-IsAmong : (xs : List Bytes) → All (λ w. IsAmong w xs) xs
All-IsAmong [] = tt
All-IsAmong (x ∷ xs) = (inl refl, All-map (λ w h. inr h) xs (All-IsAmong xs))

-- What becomes of an include, as `include:` and the domain.
abbrev pub Stands : Bytes → Bytes → Bytes → Type 0
Stands t value m =
    IsAmong m (fields value) ⊎ ((has_prefix (to_lower t) version ≡ true) × IsWithin m t)

fixed-IsWord : IsWord version × IsWord (codes "~all")
unfolding is_space
fixed-IsWord = (
  (cons-ne-nil _ _, (refl, (refl, (refl, (refl, (refl, (refl, tt))))))),
  (cons-ne-nil _ _, (refl, (refl, (refl, (refl, tt))))),
)

fresh-Stands :
    (t : Bytes) (includes : List Bytes)
    → All IsDomain includes
    → All (Stands t (build_fresh includes)) (map include_of includes)
unfolding build_fresh
fresh-Stands t [] h = tt
fresh-Stands t (i ∷ is) h =
    All-map
      (λ m k. inl (
        subst (IsAmong m) (sym (fields-join (version ∷ (ms ++ codes "~all" ∷ [])) words))
          (inr (IsAmong-left m ms (codes "~all" ∷ []) k))))
      ms (All-IsAmong ms)
  where
    ms : List Bytes
    ms = map include_of (i ∷ is)

    words : All IsWord (version ∷ (ms ++ codes "~all" ∷ []))
    words = (
      fixed-IsWord.0,
      All-append IsWord ms (codes "~all" ∷ [])
          (All-image include_of IsWord (i ∷ is) (All-map include_of-IsWord (i ∷ is) h))
          (fixed-IsWord.1, tt),
    )

-- What is not selected stands in the record.
selected_step :
    (t m : Bytes) (ms kept : List Bytes) (b : Bool)
    → contains t m ≡ b
    → All (λ x. IsAmong x kept ⊎ (contains t x ≡ true)) ms
    → All (λ x. IsAmong x (if not b then m ∷ kept else kept) ⊎ (contains t x ≡ true)) (m ∷ ms)
selected_step t m ms kept true y h = (inr y, h)
selected_step t m ms kept false n h = (inl (inl refl), All-map (λ x k. wider x k) ms h)
  where
    wider :
        (x : Bytes)
        → IsAmong x kept ⊎ (contains t x ≡ true)
        → IsAmong x (m ∷ kept) ⊎ (contains t x ≡ true)
    wider x (inl k) = inl (inr k)
    wider x (inr k) = inr k

selected :
    (t : Bytes) (ms : List Bytes)
    → All (λ m. IsAmong m (select (λ x. not (contains t x)) ms) ⊎ (contains t m ≡ true)) ms
selected t [] = tt
selected t (m ∷ ms) =
    selected_step t m ms (select (λ x. not (contains t x)) ms) (contains t m) refl (selected t ms)

extend-Stands :
    (t : Bytes) (includes : List Bytes)
    → All IsDomain includes
    → has_prefix (to_lower t) version ≡ true
    → All (Stands t (extend t (additions t includes)).value) (map include_of includes)
extend-Stands t includes h p =
    All-map (λ m k. held m k) (map include_of includes)
      (unfold additions in selected t (map include_of includes))
  where
    held :
        (m : Bytes)
        → IsAmong m (additions t includes) ⊎ (contains t m ≡ true)
        → Stands t (extend t (additions t includes)).value m
    held m (inr c) = inr (p, within t m c)
    held m (inl k) =
        let w = extend-WordsKept t includes h (λ e. subst (IsAmong m) e k) in
        inl (
          subst (IsAmong m) (sym w.new_words) (
            IsAmong-right m w.before (additions t includes ++ w.after)
              (IsAmong-left m (additions t includes) w.after k)))

-- Where the includes hold no white space: each of them is a word of the merged record, as `include:`
-- and the domain, unless the record was an SPF record in which these bytes stood already, wherever
-- that was, as in the include of a longer domain.
pub merge_value-Stands :
    (current : Bytes) (includes : List Bytes)
    → All IsDomain includes
    → All
        (λ inc. Stands (trim_space current) (merge_value current includes).value (include_of inc))
        includes
unfolding merge_value
merge_value-Stands current includes h =
    All-preimage include_of (Stands t (merge_trimmed t includes).value) includes
      (elim (merge_cases t includes) [
        | inl (e, _) ↦ subst held (sym e) (fresh-Stands t includes h)
        | inr (p, e) ↦
            subst held (sym (ap (λ (m : Merged). m.value) e)) (extend-Stands t includes h p)
      ])
  where
    t : Bytes
    t = trim_space current

    held : Bytes → Type 0
    held v = All (Stands t v) (map include_of includes)
