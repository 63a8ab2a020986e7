-- ===== src/Providers/Replace.antt =====
-- Replacing the first match of a list, or adding to its end, which two of the back ends do.
use dns_entree.Base.{
  ◌≡◌, Bool, true, List, [], ◌∷◌, find?, some, if◌then◌else◌, Bool-cases, inl, inr,
}

module _ {A : Type 0} (same : A → Bool) where
  abbrev pub replace_first : List A → A → List A
  replace_first [] new = new ∷ []
  replace_first (x ∷ xs) new =
      let rest = replace_first xs new in if same x then new ∷ xs else x ∷ rest

  -- What matches nothing, in its order.
  abbrev pub others : List A → List A
  others [] = []
  others (x ∷ xs) = let rest = others xs in if same x then rest else x ∷ rest

  module _ (new : A) (own : same new ≡ true) where
    pub replace_first-others : (xs : List A) → others (replace_first xs new) ≡ others xs
    replace_first-others [] = rw own
    replace_first-others (x ∷ xs) = elim (Bool-cases (same x)) [
      | inl y ↦ rw (y, own)
      | inr n ↦ rw (n, n, replace_first-others xs)
    ]

    pub find?-replace_first : (xs : List A) → find? same (replace_first xs new) ≡ some new
    find?-replace_first [] = rw own
    find?-replace_first (x ∷ xs) = elim (Bool-cases (same x)) [
      | inl y ↦ rw (y, own)
      | inr n ↦ rw (n, n, find?-replace_first xs)
    ]

    pub replace_first_twice :
        (xs : List A) → replace_first (replace_first xs new) new ≡ replace_first xs new
    replace_first_twice [] = rw own
    replace_first_twice (x ∷ xs) = elim (Bool-cases (same x)) [
      | inl y ↦ rw (y, own)
      | inr n ↦ rw (n, n, replace_first_twice xs)
    ]
