-- ===== src/Spf/Splice.antt =====
-- Where MergeSPF puts the new mechanisms into a record.
use dns_entree.Base.{
  ℕ, true, List, [], ◌∷◌, ◌++◌, arith, ◌≡◌, refl, sym, take, drop, some, All, Option-cases, inl,
  inr, ◌⊎◌, take-append-drop,
}
use dns_entree.Text.{Bytes, codes, space, has_prefix, index, join, index_at}
use dns_entree.Spf.Merge.{first_at, terminators, redirect, insertion_place, splice, insert_all}

-- The texts that the loop looks for all start with a space.
abbrev StartsWithSpace : Bytes → Type 0
StartsWithSpace t = t ≡ space ∷ drop 1 t

prefix_space : (s p : Bytes) → StartsWithSpace p → has_prefix s p ≡ true → StartsWithSpace s
unfolding has_prefix
prefix_space s [] q h = cc
prefix_space [] (d ∷ p) q h = cc
prefix_space (c ∷ s) (d ∷ p) q h = ground arith

index_space :
    (s p : Bytes) (i : ℕ) → StartsWithSpace p → index s p ≡ some i → StartsWithSpace (drop i s)
index_space s p i q h = prefix_space (drop i s) p q (index_at s p i h)

first_at_space :
    (s : Bytes) (ts : List Bytes) (i : ℕ)
    → All StartsWithSpace ts
    → first_at s ts ≡ some i
    → StartsWithSpace (drop i s)
unfolding first_at
first_at_space s [] i h e = cc
first_at_space s (t ∷ ts) i (q, h) e = elim (Option-cases (index s t)) [
  | inl n ↦ first_at_space s ts i h (rw (n, first_at) at e)
  | inr (j, f) ↦ index_space s t i q (ground arith)
]

place_space : (s : Bytes) (i : ℕ) → insertion_place s ≡ some i → StartsWithSpace (drop i s)
unfolding insertion_place
place_space s i e = elim (Option-cases (first_at s terminators)) [
  | inl n ↦ index_space s redirect i refl (rw (n, insertion_place) at e)
  | inr (j, f) ↦ first_at_space s terminators i (refl, (refl, (refl, (refl, tt)))) (ground arith)
]

-- The insertion stands between a front part of the record and the rest, which starts with a space.
-- Where no place is found, the front part is the record and the rest is the added ` -all`.
pub record Spliced (trimmed : Bytes) (extra : List Bytes) : Type 0 where
  pub front : Bytes
  pub rest : Bytes
  pub value :
      insert_all trimmed extra ≡ front ++ ((space ∷ join extra (space ∷ [])) ++ space ∷ rest)
  pub source : (trimmed ≡ front ++ space ∷ rest) ⊎ ((trimmed ≡ front) × (rest ≡ codes "-all"))

pub insert_all-Spliced : (trimmed : Bytes) (extra : List Bytes) → Spliced trimmed extra
unfolding insert_all splice
insert_all-Spliced trimmed extra = elim (Option-cases (insertion_place trimmed)) [
  | inl n ↦ record { front = trimmed; rest = codes "-all"; value = rw n; source = inr (refl, refl) }
  | inr (i, e) ↦ record {
    front = take i trimmed;
    rest = drop 1 (drop i trimmed);
    value = rw (e, ← place_space trimmed i e);
    source = inl (rw (← place_space trimmed i e) (sym (take-append-drop i trimmed)));
  }
]
