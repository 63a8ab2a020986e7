-- ===== src/Template/Keys/Dedup.antt =====
-- `deduplicateRecords` keeps one record of each key.
use dns_entree.Base.{
  ℕ, ◌≡◌, sym, ap, ◌∙◌, subst, true, false, List, [], ◌∷◌, if◌then◌else◌, ◌==◌, any, Bool-cases,
  inl, inr, arith,
}
use dns_entree.Text.{Bytes, str_eq, str_eq_iff, str_eq_refl}
use dns_entree.Record.{Record}
use dns_entree.Template.Keys.{record_key, dedup_seen, deduplicate}
use dns_entree.Template.Keys.Counts.{count}

abbrev pub once : ℕ → ℕ
once n = if n == 0 then 0 else 1

str_eq_sym : (a b : Bytes) → str_eq a b ≡ false → str_eq b a ≡ false
str_eq_sym a b h = elim (Bool-cases (str_eq b a)) [
  | inl y ↦ y ∙ (sym (str_eq_refl b) ∙ (ap (λ x. str_eq x b) ((str_eq_iff b a).0 y) ∙ h))
  | inr n ↦ n
]

count-dedup_seen :
    (k : Bytes) (rs : List Record) (seen : List Bytes)
    → count k (dedup_seen seen rs) ≡ (if any (str_eq k) seen then 0 else once (count k rs))
unfolding dedup_seen
count-dedup_seen k [] seen = ground arith
count-dedup_seen k (r ∷ rs) seen =
    let again = count-dedup_seen k rs seen in
    let first = count-dedup_seen k rs (record_key r ∷ seen) in
    elim (Bool-cases (str_eq (record_key r) k)) [
      | inl y ↦
          let same : record_key r ≡ k = (str_eq_iff (record_key r) k).0 y in
          ground (
            arith,
            again,
            first,
            y,
            ap (λ x. any (str_eq x) seen) same,
            subst (λ x. str_eq k x ≡ true) (sym same) (str_eq_refl k),
          )
      | inr n ↦ ground (arith, again, first, n, str_eq_sym (record_key r) k n)
    ]

-- Of the records with a key one is kept, where there is one.
pub count-deduplicate :
    (k : Bytes) (rs : List Record) → count k (deduplicate rs) ≡ once (count k rs)
unfolding deduplicate
count-deduplicate k rs = count-dedup_seen k rs []
