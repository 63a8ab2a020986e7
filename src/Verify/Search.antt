-- ===== src/Verify/Search.antt =====
-- The search through the values of one answer, and through those of several.
use dns_entree.Base.{
  ℕ, ◌+◌, ◌≤◌, ◌≡◌, refl, sym, ◌∙◌, subst, Bool, true, false, List, [], ◌∷◌, ◌++◌, none, some,
  if◌then◌else◌, arith, length, find?, Bool-cases, inl, inr,
}
use dns_entree.Text.{Bytes}
use dns_entree.Template.Names.{is_empty}
use dns_entree.Verify.{
  Method, VerifyResult, matches, Seen, matched, unmatched, note_value, see_values,
}

-- The first value that is not empty, behind one that was seen before.
abbrev pub first_value : Bytes → List Bytes → Bytes
first_value c [] = c
first_value c (v ∷ vs) = first_value (if is_empty c then v else c) vs

find?-append_none :
    (p : Bytes → Bool) (xs ys : List Bytes) → find? p xs ≡ none → find? p (xs ++ ys) ≡ find? p ys
find?-append_none p [] ys h = refl
find?-append_none p (x ∷ xs) ys h = ground (arith, find?-append_none p xs ys)

find?-append_some :
    (p : Bytes → Bool) (xs ys : List Bytes) (v : Bytes)
    → find? p xs ≡ some v
    → find? p (xs ++ ys) ≡ some v
find?-append_some p [] ys v h = cc
find?-append_some p (x ∷ xs) ys v h = ground (arith, find?-append_some p xs ys v)

first_value-append :
    (c : Bytes) (xs ys : List Bytes) → first_value c (xs ++ ys) ≡ first_value (first_value c xs) ys
first_value-append c [] ys = refl
first_value-append c (x ∷ xs) ys = first_value-append (if is_empty c then x else c) xs ys

-- What the search has come to, after these values and with this value seen before, where so many
-- more servers may be asked.
abbrev pub Sees : Bytes → ℕ → Bytes → List Bytes → Seen → Type 0
Sees wanted n c vs (matched r) =
    (r.verified ≡ true)
    × ((v : Bytes) × (find? (λ x. matches x wanted) vs ≡ some v) × (r.current_value ≡ v))
    × (length r.nameservers_queried + n ≤ 2)
Sees wanted n c vs (unmatched r) =
    (r.verified ≡ false)
    × (find? (λ x. matches x wanted) vs ≡ none)
    × (r.current_value ≡ first_value c vs)
    × (length r.nameservers_queried + n ≤ 2)

note_value-current :
    (how : Method) (v : Bytes) (r : VerifyResult)
    → (note_value how v r).current_value ≡ (if is_empty r.current_value then v else r.current_value)
unfolding note_value
note_value-current how v r = ground arith

note_value-kept :
    (how : Method) (v : Bytes) (r : VerifyResult)
    → ((note_value how v r).verified ≡ r.verified)
      × ((note_value how v r).nameservers_queried ≡ r.nameservers_queried)
unfolding note_value
note_value-kept how v r = ground arith

-- One more value in front that does not match.
Sees-cons :
    (wanted : Bytes) (n : ℕ) (c v : Bytes) (vs : List Bytes) (s : Seen)
    → matches v wanted ≡ false
    → Sees wanted n (if is_empty c then v else c) vs s
    → Sees wanted n c (v ∷ vs) s
Sees-cons wanted n c v vs (matched r) h (ver, (x, f, e), k) = (ver, (x, rw h f, e), k)
Sees-cons wanted n c v vs (unmatched r) h (ver, f, e, k) = (ver, rw h f, e, k)

pub see_values-Sees :
    (wanted : Bytes) (n : ℕ) (how : Method) (vs : List Bytes) (r : VerifyResult)
    → r.verified ≡ false
    → length r.nameservers_queried + n ≤ 2
    → Sees wanted n r.current_value vs (see_values wanted how vs r)
unfolding see_values
see_values-Sees wanted n how [] r h k = (h, refl, refl, k)
see_values-Sees wanted n how (v ∷ vs) r h k = elim (Bool-cases (matches v wanted)) [
  | inl y ↦ rw y (refl, (v, rw y refl, refl), k)
  | inr m ↦
      let (ver, queried) = note_value-kept how v r in
      let next = note_value how v r in
      let rest =
        see_values-Sees wanted n how vs next (ver ∙ h)
          (subst (λ q. length q + n ≤ 2) (sym queried) k) in
      rw m (
        Sees-cons wanted n r.current_value v vs (see_values wanted how vs next) m (
          subst (λ c. Sees wanted n c vs (see_values wanted how vs next))
            (note_value-current how v r) rest))
]

-- The values of one answer in front of those of the rest.
pub Sees-append :
    (wanted : Bytes) (n : ℕ) (c : Bytes) (xs ys : List Bytes) (s : Seen)
    → find? (λ x. matches x wanted) xs ≡ none
    → Sees wanted n (first_value c xs) ys s
    → Sees wanted n c (xs ++ ys) s
Sees-append wanted n c xs ys (matched r) h (ver, (x, f, e), k) =
    (ver, (x, find?-append_none (λ z. matches z wanted) xs ys h ∙ f, e), k)
Sees-append wanted n c xs ys (unmatched r) h (ver, f, e, k) = (
  ver,
  find?-append_none (λ z. matches z wanted) xs ys h ∙ f,
  e ∙ sym (first_value-append c xs ys),
  k,
)

pub Sees-first :
    (wanted : Bytes) (n : ℕ) (c : Bytes) (xs ys : List Bytes) (r : VerifyResult)
    → Sees wanted n c xs (matched r)
    → Sees wanted 0 c (xs ++ ys) (matched r)
Sees-first wanted n c xs ys r (ver, (x, f, e), k) =
    (ver, (x, find?-append_some (λ z. matches z wanted) xs ys x f, e), omega (arith, k))
