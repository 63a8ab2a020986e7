-- ===== src/Template/Keys/Counts.antt =====
-- How often a key stands in a list of records, before and after records are removed.
use dns_entree.Base.{
  ℕ, ◌+◌, ◌≤◌, ◌≡◌, refl, ap, subst, Bool, true, false, List, [], ◌∷◌, ◌++◌, map, Option, none,
  some, if◌then◌else◌, arith, select, find?, Option-cases, Bool-cases, inl, inr, ◌⊎◌,
}
use dns_entree.Text.{Bytes, str_eq, str_eq_iff}
use dns_entree.Record.{Record}
use dns_entree.Template.Keys.{record_key, take_key, remove_one, remove_keys, remove_records}

abbrev pub occurs : Bytes → List Bytes → ℕ
occurs k [] = 0
occurs k (x ∷ xs) = (if str_eq x k then 1 else 0) + occurs k xs

-- How many records have the key.
abbrev pub count : Bytes → List Record → ℕ
count k [] = 0
count k (r ∷ rs) = (if str_eq (record_key r) k then 1 else 0) + count k rs

pub count-append : (k : Bytes) (rs ts : List Record) → count k (rs ++ ts) ≡ count k rs + count k ts
count-append k [] ts = omega arith
count-append k (r ∷ rs) ts = omega (arith, count-append k rs ts)

occurs-map : (k : Bytes) (rs : List Record) → occurs k (map record_key rs) ≡ count k rs
occurs-map k [] = refl
occurs-map k (r ∷ rs) = ap (λ n. (if str_eq (record_key r) k then 1 else 0) + n) (occurs-map k rs)

same_test : (x y k : Bytes) → str_eq x y ≡ true → str_eq x k ≡ str_eq y k
same_test x y k h = ap (λ z. str_eq z k) ((str_eq_iff x y).0 h)

take_none : (k : Bytes) (keys : List Bytes) → take_key k keys ≡ none → occurs k keys ≡ 0
unfolding take_key
take_none k [] h = refl
take_none k (x ∷ xs) h = ground (arith, take_none k xs)

take_some :
    (k : Bytes) (keys rest : List Bytes)
    → take_key k keys ≡ some rest
    → (j : Bytes) → occurs j keys ≡ (if str_eq k j then 1 else 0) + occurs j rest
unfolding take_key
take_some k [] rest h j = cc
take_some k (x ∷ xs) rest h j = elim (Bool-cases (str_eq x k)) [
  | inl y ↦ ground (arith, same_test x k j y)
  | inr n ↦ elim (Option-cases (take_key k xs)) [
    | inl e ↦ ground arith
    | inr (ys, e) ↦ ground (arith, take_some k xs ys e j)
  ]
]

-- No key stands more often among the keys to remove than in the records.
abbrev Fits : List Bytes → List Record → Type 0
Fits keys rs = (k : Bytes) → occurs k keys ≤ count k rs

Fits-kept :
    (r : Record) (rs : List Record) (keys : List Bytes)
    → Fits keys (r ∷ rs)
    → occurs (record_key r) keys ≡ 0
    → Fits keys rs
Fits-kept r rs keys f z k = ground (arith, f k, same_key (Bool-cases (str_eq (record_key r) k)))
  where
    same_key :
        (str_eq (record_key r) k ≡ true) ⊎ (str_eq (record_key r) k ≡ false)
        → (str_eq (record_key r) k ≡ false) ⊎ (occurs k keys ≡ 0)
    same_key (inl y) = inr (subst (λ j. occurs j keys ≡ 0) ((str_eq_iff (record_key r) k).0 y) z)
    same_key (inr n) = inl n

-- One record of the loop, given what the rest of it does.
count-remove_one :
    (r : Record) (rs : List Record) (rest : List Bytes → List Record) (keys : List Bytes)
    (k : Bytes)
    → ((left : List Bytes) → Fits left rs → count k (rest left) + occurs k left ≡ count k rs)
    → Fits keys (r ∷ rs)
    → (o : Option (List Bytes)) → take_key (record_key r) keys ≡ o
    → count k (remove_one r rest keys o) + occurs k keys ≡ count k (r ∷ rs)
count-remove_one r rs rest keys k ih f none e =
    omega (arith, ih keys (Fits-kept r rs keys f (take_none (record_key r) keys e)))
count-remove_one r rs rest keys k ih f (some left) e = omega (
  arith,
  ih left (λ j. omega (arith, f j, take_some (record_key r) keys left e j)),
  take_some (record_key r) keys left e k,
)

count-remove_keys :
    (rs : List Record) (keys : List Bytes)
    → Fits keys rs
    → (k : Bytes) → count k (remove_keys rs keys) + occurs k keys ≡ count k rs
unfolding remove_keys
count-remove_keys [] keys f k = omega (arith, f k)
count-remove_keys (r ∷ rs) keys f k =
    count-remove_one r rs (remove_keys rs) keys k (λ left g. count-remove_keys rs left g k) f
      (take_key (record_key r) keys) refl

-- Records that fit into the zone are removed as often as they are named, key by key.
pub count-remove_records :
    (zone dels : List Record)
    → ((k : Bytes) → count k dels ≤ count k zone)
    → (k : Bytes) → count k (remove_records zone dels) + count k dels ≡ count k zone
unfolding remove_records
count-remove_records zone dels f k = omega (
  arith,
  count-remove_keys zone (map record_key dels) (λ j. omega (arith, f j, occurs-map j dels)) k,
  occurs-map k dels,
)

pub count-select-le :
    (p : Record → Bool) (k : Bytes) (rs : List Record) → count k (select p rs) ≤ count k rs
count-select-le p k [] = omega arith
count-select-le p k (r ∷ rs) = ground (arith, count-select-le p k rs)

pub count-found-le :
    (p : Record → Bool) (k : Bytes) (rs : List Record) (r : Record)
    → find? p rs ≡ some r
    → count k (r ∷ []) ≤ count k rs
count-found-le p k [] r h = cc
count-found-le p k (x ∷ rs) r h = go (p x) (λ e. count-found-le p k rs r e) h
  where
    go :
        (b : Bool)
        → (find? p rs ≡ some r → count k (r ∷ []) ≤ count k rs)
        → (if b then some x else find? p rs) ≡ some r
        → count k (r ∷ []) ≤ count k (x ∷ rs)
    go true ih e = let same : x ≡ r = cc in omega (arith, ap (count k) (ap (λ y. y ∷ []) same))
    go false ih e = omega (arith, ih e)
