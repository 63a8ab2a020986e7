-- ===== src/Text/Search.antt =====
-- `contains` and `index` against occurrences, and needles that hold no space.
use mathlib.Core.List.{reverse, reverse-append, reverse-reverse}
use dns_entree.Base.{
  ℕ, zero, suc, ◌≡◌, ◌≢◌, refl, sym, ap, ◌∙◌, true, [], ◌∷◌, ◌++◌, Option, none, some, arith,
  length, drop, inl, ◌⊎◌,
}
use dns_entree.Text.Core.{
  Bytes, Lacks, space, has_prefix, has_suffix, index, contains, next, is_some, has_prefix-append,
  has_prefix_rest,
}

pub has_prefix_longer : (s p t : Bytes) → has_prefix s p ≡ true → has_prefix (s ++ t) p ≡ true
unfolding has_prefix
has_prefix_longer s [] t h = refl
has_prefix_longer [] (p ∷ ps) t h = cc
has_prefix_longer (c ∷ s) (p ∷ ps) t h = ground (arith, has_prefix_longer s ps t)

-- A needle that stands in a text still stands there with more text after it.
pub contains-append_left : (s t sub : Bytes) → contains s sub ≡ true → contains (s ++ t) sub ≡ true
unfolding contains
contains-append_left [] t [] h = contains_nil t
  where
    contains_nil : (t : Bytes) → is_some (index t []) ≡ true
    contains_nil [] = refl
    contains_nil (c ∷ t) = refl
contains-append_left [] t (p ∷ ps) h = cc
contains-append_left (c ∷ s) t sub h =
    ground (arith, contains-append_left s t sub, has_prefix_longer (c ∷ s) sub t)

-- And with more text before it.
pub contains-append_right : (s t sub : Bytes) → contains t sub ≡ true → contains (s ++ t) sub ≡ true
unfolding contains
contains-append_right [] t sub h = h
contains-append_right (c ∷ s) t sub h = ground (arith, contains-append_right s t sub h)

pub contains_self : (sub t : Bytes) → contains (sub ++ t) sub ≡ true
unfolding contains
contains_self [] [] = refl
contains_self [] (c ∷ t) = refl
contains_self (c ∷ sub) t = ground (arith, has_prefix-append (c ∷ sub) t)

-- The text in front of a space decides whether it starts with a text that holds none.
pub has_prefix_before :
    (s p t : Bytes) → Lacks space p → has_prefix (s ++ space ∷ t) p ≡ true → has_prefix s p ≡ true
unfolding has_prefix
has_prefix_before s [] t l h = refl
has_prefix_before [] (p ∷ ps) t l h = ground arith
has_prefix_before (c ∷ s) (p ∷ ps) t l h = ground (arith, has_prefix_before s ps t l.1)

-- A needle with no space in it does not cross a space.
pub contains_split :
    (s t sub : Bytes)
    → Lacks space sub
    → contains (s ++ space ∷ t) sub ≡ true
    → (contains s sub ≡ true) ⊎ (contains t sub ≡ true)
unfolding contains has_prefix
contains_split [] t [] l h = inl refl
contains_split [] t (p ∷ ps) l h = ground arith
contains_split (c ∷ s) t sub l h =
    ground (arith, contains_split s t sub l, has_prefix_before (c ∷ s) sub t l)

-- The needle stands where `index` says.
pub index_at : (s sub : Bytes) (i : ℕ) → index s sub ≡ some i → has_prefix (drop i s) sub ≡ true
unfolding index
index_at [] sub i h = ground arith
index_at (c ∷ s) sub zero h = ground arith
index_at (c ∷ s) sub (suc i) h = ground (arith, index_at s sub i)

-- A text that starts with a needle's first byte elsewhere: the place of a needle is not 0.
pub index-ne-zero : (c d : ℕ) (s sub : Bytes) → c ≢ d → index (c ∷ s) (d ∷ sub) ≢ some 0
unfolding index
index-ne-zero c d s sub n = ground (arith, next_ne (index s (d ∷ sub)))
  where
    next_ne : (o : Option ℕ) → next o ≢ some 0
    next_ne none = cc
    next_ne (some i) = ground arith

pub index-contains : (s sub : Bytes) (i : ℕ) → index s sub ≡ some i → contains s sub ≡ true
unfolding contains
index-contains s sub i h = rw h

-- A text with a suffix ends in it.
pub has_suffix_rest : (s t : Bytes) → has_suffix s t ≡ true → (r : Bytes) × (s ≡ r ++ t)
unfolding has_suffix
has_suffix_rest s t h =
    let rest = drop (length (reverse t)) (reverse s) in
    (
      reverse rest,
      sym (reverse-reverse s)
          ∙ ap reverse (has_prefix_rest (reverse s) (reverse t) h)
          ∙ reverse-append (reverse t) rest
          ∙ ap (λ u. reverse rest ++ u) (reverse-reverse t),
    )
