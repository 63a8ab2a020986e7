-- ===== src/Template/Keys/Fields.antt =====
-- What a record's key says of its fields.
use dns_entree.Base.{
  ℕ, ◌+◌, ◌≡◌, ◌≢◌, refl, ap, ◌∙◌, Bool, true, false, List, [], ◌∷◌, ◌++◌, map, Option, none, some,
  if◌then◌else◌, arith, select, any, Bool-cases, inl, inr, All,
}
use dns_entree.Text.{
  Bytes, str_eq, str_eq_iff, str_eq_refl, Lacks, to_upper, to_lower, upper_byte, lower_byte,
}
use dns_entree.Record.{Record}
use dns_entree.Template.Keys.{bar, record_key, take_key, remove_one, remove_keys, remove_records}
use dns_entree.Template.Keys.Counts.{count, count-remove_records, count-select-le}

-- A text up to the first bar, and the text behind it.
pub cut_at :
    (b : ℕ) (s s' t t' : Bytes)
    → Lacks b s
    → Lacks b s'
    → s ++ (b ∷ t) ≡ s' ++ (b ∷ t')
    → (s ≡ s') × (t ≡ t')
cut_at b [] [] t t' l l' e = ground arith
cut_at b [] (c ∷ s') t t' l l' e = ground arith
cut_at b (c ∷ s) [] t t' l l' e = ground arith
cut_at b (c ∷ s) (d ∷ s') t t' l l' e = ground (arith, cut_at b s s' t t' l.1 l'.1)

upper_byte-bar : (c : ℕ) → c ≢ bar → upper_byte c ≢ bar
unfolding upper_byte
upper_byte-bar c h = ground arith

lower_byte-bar : (c : ℕ) → c ≢ bar → lower_byte c ≢ bar
unfolding lower_byte
lower_byte-bar c h = ground arith

to_upper-Lacks : (s : Bytes) → Lacks bar s → Lacks bar (to_upper s)
unfolding to_upper
to_upper-Lacks [] l = tt
to_upper-Lacks (c ∷ s) (h, l) = (upper_byte-bar c h, to_upper-Lacks s l)

to_lower-Lacks : (s : Bytes) → Lacks bar s → Lacks bar (to_lower s)
unfolding to_lower
to_lower-Lacks [] l = tt
to_lower-Lacks (c ∷ s) (h, l) = (lower_byte-bar c h, to_lower-Lacks s l)

-- A record of a normalised zone: its type is in upper case, and no bar stands in its type or name.
pub record IsPlain (r : Record) : Type 0 where
  pub upper : to_upper r.typ ≡ r.typ
  pub typ_bar : Lacks bar r.typ
  pub name_bar : Lacks bar r.name

-- Two plain records (types in upper case, no bar in a type or name) with one key have one type and, but
-- for case, one name.
pub record_key-type_name :
    (r r' : Record)
    → IsPlain r
    → IsPlain r'
    → record_key r ≡ record_key r'
    → (r.typ ≡ r'.typ) × (to_lower r.name ≡ to_lower r'.name)
unfolding record_key
record_key-type_name r r' p p' e =
    let (same_type, rest) =
      cut_at bar (to_upper r.typ) (to_upper r'.typ) _ _ (to_upper-Lacks r.typ p.typ_bar)
        (to_upper-Lacks r'.typ p'.typ_bar) e in
    let (same_name, _) =
      cut_at bar (to_lower r.name) (to_lower r'.name) _ _ (to_lower-Lacks r.name p.name_bar)
        (to_lower-Lacks r'.name p'.name_bar) rest in
    (cc (p.upper, p'.upper), same_name)

-- A rule that plain records with one key answer alike.
abbrev pub Respects : (Record → Bool) → Type 0
Respects p = (r r' : Record) → IsPlain r → IsPlain r' → record_key r ≡ record_key r' → p r ≡ p r'

module _ (P : Record → Type 0) where
  remove_one-All :
      (r : Record) (rest : List Bytes → List Record) (keys : List Bytes) (o : Option (List Bytes))
      → P r
      → ((left : List Bytes) → All P (rest left))
      → All P (remove_one r rest keys o)
  remove_one-All r rest keys none p h = (p, h keys)
  remove_one-All r rest keys (some left) p h = h left

  remove_keys-All : (rs : List Record) (keys : List Bytes) → All P rs → All P (remove_keys rs keys)
  unfolding remove_keys
  remove_keys-All [] keys _ = tt
  remove_keys-All (r ∷ rs) keys (p, h) =
      remove_one-All r (remove_keys rs) keys (take_key (record_key r) keys) p
        (λ left. remove_keys-All rs left h)

  -- What holds of every record of a zone holds of those that are left in it.
  pub remove_records-All : (zone dels : List Record) → All P zone → All P (remove_records zone dels)
  unfolding remove_records
  remove_records-All zone dels h = remove_keys-All zone (map record_key dels) h

-- The rule takes every record with this key.
abbrev Takes : (Record → Bool) → Bytes → Type 0
Takes p k = (r : Record) → IsPlain r → record_key r ≡ k → p r ≡ true

count-select-All :
    (p : Record → Bool) (k : Bytes)
    → Takes p k
    → (rs : List Record) → All IsPlain rs
    → count k (select p rs) ≡ count k rs
count-select-All p k t [] _ = refl
count-select-All p k t (r ∷ rs) (q, h) = elim (Bool-cases (p r)) [
  | inl y ↦
      rw y (ap (λ n. (if str_eq (record_key r) k then 1 else 0) + n) (count-select-All p k t rs h))
  | inr n ↦ elim (Bool-cases (str_eq (record_key r) k)) [
    | inl same ↦ absurd (false_true (p r) n (t r q ((str_eq_iff (record_key r) k).0 same)))
    | inr other ↦ rw (n, other) (omega (arith, count-select-All p k t rs h))
  ]
]
  where
    false_true : (b : Bool) → b ≡ false → b ≡ true → ⊥
    false_true b x y = cc

none_left :
    (p : Record → Bool)
    → Respects p
    → (rs : List Record) → All IsPlain rs
    → ((k : Bytes) → Takes p k → count k rs ≡ 0)
    → any p rs ≡ false
none_left p resp [] _ z = refl
none_left p resp (r ∷ rs) (q, h) z = elim (Bool-cases (p r)) [
  | inl y ↦ absurd (
      one_not_zero (count (record_key r) rs) (str_eq (record_key r) (record_key r))
        (str_eq_refl (record_key r)) (z (record_key r) (λ r' q' e. resp r' r q' q e ∙ y)))
  | inr n ↦ rw n (none_left p resp rs h (λ k t. omega (arith, z k t)))
]
  where
    one_not_zero : (m : ℕ) (b : Bool) → b ≡ true → (if b then 1 else 0) + m ≡ 0 → ⊥
    one_not_zero m true e z' = omega arith
    one_not_zero m false e z' = cc

-- When all that a rule takes is removed from a plain zone, nothing that it takes is left.
pub any-remove_selected :
    (p : Record → Bool)
    → Respects p
    → (zone : List Record) → All IsPlain zone
    → any p (remove_records zone (select p zone)) ≡ false
any-remove_selected p resp zone h =
    none_left p resp (remove_records zone (select p zone))
      (remove_records-All IsPlain zone (select p zone) h)
      (λ k t. omega (
        arith,
        count-remove_records zone (select p zone) (λ j. count-select-le p j zone) k,
        count-select-All p k t zone h,
      ))
