-- ===== src/Migrate/Store/Rows.antt =====
-- Reading a row behind a write or a removal, as for a map.
use dns_entree.Base.{◌≡◌, refl, ap, ◌∙◌, false, [], ◌∷◌, none, some, arith, Bool-cases, inl, inr}
use dns_entree.Text.{Bytes, str_eq, str_eq_iff, str_eq_refl}
use dns_entree.Migrate.Store.{Row, Dir, read_row, write_row, remove_row}

module _ {B : Type 0} where
  pub read_row-write_row : (m : Row B) (d : Dir B) → read_row m.id (write_row m d) ≡ some m
  unfolding read_row write_row
  read_row-write_row m [] = ground (arith, str_eq_refl m.id)
  read_row-write_row m ((k, r) ∷ d) = ground (arith, read_row-write_row m d)

  pub read_row-write_other :
      (m : Row B) (id : Bytes) (d : Dir B)
      → str_eq m.id id ≡ false
      → read_row id (write_row m d) ≡ read_row id d
  unfolding read_row write_row
  read_row-write_other m id [] n = ground arith
  read_row-write_other m id ((k, r) ∷ d) n = elim (Bool-cases (str_eq k m.id)) [
    | inl y ↦
        let other : str_eq k id ≡ false = ap (λ x. str_eq x id) ((str_eq_iff k m.id).0 y) ∙ n in
        ground (arith, y, other)
    | inr z ↦ ground (arith, z, read_row-write_other m id d n)
  ]

  pub read_row-remove_row : (id : Bytes) (d : Dir B) → read_row {B = B} id (remove_row id d) ≡ none
  unfolding read_row remove_row
  read_row-remove_row id [] = refl
  read_row-remove_row id ((k, r) ∷ d) = ground (arith, read_row-remove_row id d)

  pub read_row-remove_other :
      (other id : Bytes) (d : Dir B)
      → str_eq other id ≡ false
      → read_row {B = B} id (remove_row other d) ≡ read_row id d
  unfolding read_row remove_row
  read_row-remove_other other id [] n = refl
  read_row-remove_other other id ((k, r) ∷ d) n = elim (Bool-cases (str_eq k other)) [
    | inl y ↦
        let apart : str_eq k id ≡ false = ap (λ x. str_eq x id) ((str_eq_iff k other).0 y) ∙ n in
        ground (arith, y, apart, read_row-remove_other other id d n)
    | inr z ↦ ground (arith, z, read_row-remove_other other id d n)
  ]
