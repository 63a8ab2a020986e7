-- ===== src/Migrate/Store/Locking.antt =====
-- The optimistic lock: what an update that succeeds overwrites.
use dns_entree.Base.{
  ℕ, ◌+◌, ◌≤◌, ◌≡◌, refl, sym, ap, ◌∙◌, subst, Bool, true, false, Option, none, some, if◌then◌else◌,
  arith, Bool-cases, inl, inr, ◌==◌,
}
use dns_entree.Text.{Bytes, str_eq, str_eq_iff}
use dns_entree.Template.Names.{is_empty}
use dns_entree.Migrate.Store.{
  Row, Dir, Answer, read_row, write_row, stamped, create_absent, create, update_found, update,
  delete, done, refused, version_mismatch, missing_id, cancelled,
}
use dns_entree.Migrate.Store.Rows.{read_row-write_row, read_row-write_other, read_row-remove_other}

module _ {B : Type 0} where
  -- What any client does to the store, but delete the row.
  pub data Step (id : Bytes) : Dir B → Dir B → Type 0 where
    created :
        (ctx_err : Bool) (now : ℕ) (m : Row B) (d : Dir B) → Step id d (create ctx_err now m d).1
    updated :
        (ctx_err : Bool) (now : ℕ) (m : Row B) (d : Dir B) → Step id d (update ctx_err now m d).1
    deleted :
        (ctx_err : Bool) (other : Bytes) (d : Dir B)
        → str_eq other id ≡ false
        → Step id d (delete ctx_err other d).1

  pub data Steps (id : Bytes) : Dir B → Dir B → Type 0 where
    stay : (d : Dir B) → Steps id d d
    step : {d e f : Dir B} → Step id d e → Steps id e f → Steps id d f

  -- A row later: its version has not fallen, and where it is the same, so is the row.
  pub record IsLater (r s : Row B) : Type 0 where
    pub version : r.version ≤ s.version
    pub same : r.version ≡ s.version → s ≡ r
    pub created : s.created_at ≡ r.created_at

  IsLater-refl : (r : Row B) → IsLater r r
  IsLater-refl r = record { version = omega arith; same = λ _. refl; created = refl }

  IsLater-trans : (r s t : Row B) → IsLater r s → IsLater s t → IsLater r t
  IsLater-trans r s t h k = record {
    version = omega (arith, h.version, k.version);
    same = λ e.
        k.same (omega (arith, e, h.version, k.version))
        ∙ h.same (omega (arith, e, h.version, k.version));
    created = k.created ∙ h.created;
  }

  abbrev pub Later : Bytes → Row B → Dir B → Type 0
  Later id r d = (s : Row B) × (read_row id d ≡ some s) × IsLater r s

  create-Later :
      (id : Bytes) (r : Row B) (ctx_err : Bool) (now : ℕ) (m : Row B) (d : Dir B)
      → read_row id d ≡ some r
      → Later id r (create ctx_err now m d).1
  unfolding create
  create-Later id r true now m d h = (r, h, IsLater-refl r)
  create-Later id r false now m d h = go (is_empty m.id) (read_row m.id d) refl
    where
      stands : read_row m.id d ≡ none → str_eq m.id id ≡ false
      stands e = elim (Bool-cases (str_eq m.id id)) [
        | inl y ↦ cc (e, h, (str_eq_iff m.id id).0 y)
        | inr n ↦ n
      ]

      go :
          (b : Bool) (o : Option (Row B))
          → read_row m.id d ≡ o
          → Later id r (if b then (refused missing_id, d) else create_absent now m d o).1
      go true o e = (r, h, IsLater-refl r)
      go false (some old) e = (r, h, IsLater-refl r)
      go false none e =
          (r, read_row-write_other (stamped now m) id d (stands e) ∙ h, IsLater-refl r)

  write-Later :
      (id : Bytes) (r old m : Row B) (now : ℕ) (d : Dir B)
      → read_row id d ≡ some r
      → read_row m.id d ≡ some old
      → old.version + 1 ≡ m.version
      → Later id r (write_row (record m { created_at = old.created_at; updated_at = now }) d)
  write-Later id r old m now d h e v = elim (Bool-cases (str_eq m.id id)) [
    | inl y ↦
        let ids : m.id ≡ id = (str_eq_iff m.id id).0 y in
        let same : r ≡ old = some_inj r old (sym h ∙ (ap (λ x. read_row x d) (sym ids) ∙ e)) in
        (
          written,
          subst (λ x. read_row x (write_row written d) ≡ some written) ids
              (read_row-write_row written d),
          record {
            version = omega (arith, v, ap (λ (x : Row B). x.version) same);
            same = λ q. ground (arith, q, v, ap (λ (x : Row B). x.version) same);
            created = sym (ap (λ (x : Row B). x.created_at) same);
          },
        )
    | inr n ↦ (r, read_row-write_other written id d n ∙ h, IsLater-refl r)
  ]
    where
      written : Row B
      written = record m { created_at = old.created_at; updated_at = now }

      some_inj : (a b : Row B) → some a ≡ some b → a ≡ b
      some_inj a b q = cc

  update-Later :
      (id : Bytes) (r : Row B) (ctx_err : Bool) (now : ℕ) (m : Row B) (d : Dir B)
      → read_row id d ≡ some r
      → Later id r (update ctx_err now m d).1
  unfolding update
  update-Later id r true now m d h = (r, h, IsLater-refl r)
  update-Later id r false now m d h = go (is_empty m.id) (read_row m.id d) refl
    where
      checked :
          (old : Row B)
          → read_row m.id d ≡ some old
          → (b : Bool) → (old.version + 1 == m.version) ≡ b
          → Later id r
              (if◌then◌else◌ {A = Answer (Unit {0}) × Dir B} b
                (done tt, write_row (record m { created_at = old.created_at; updated_at = now }) d)
                (refused version_mismatch, d)).1
      checked old e true v = write-Later id r old m now d h e (ground arith)
      checked old e false v = (r, h, IsLater-refl r)

      go :
          (b : Bool) (o : Option (Row B))
          → read_row m.id d ≡ o
          → Later id r (if b then (refused missing_id, d) else update_found now m d o).1
      go true o e = (r, h, IsLater-refl r)
      go false none e = (r, h, IsLater-refl r)
      go false (some old) e = checked old e (old.version + 1 == m.version) refl

  delete-Later :
      (id : Bytes) (r : Row B) (ctx_err : Bool) (other : Bytes) (d : Dir B)
      → str_eq other id ≡ false
      → read_row id d ≡ some r
      → Later id r (delete ctx_err other d).1
  unfolding delete
  delete-Later id r true other d n h = (r, h, IsLater-refl r)
  delete-Later id r false other d n h = (r, read_row-remove_other other id d n ∙ h, IsLater-refl r)

  Step-Later :
      (id : Bytes) (r : Row B) (d e : Dir B) → Step id d e → read_row id d ≡ some r → Later id r e
  Step-Later id r _ _ (created c now m d) h = create-Later id r c now m d h
  Step-Later id r _ _ (updated c now m d) h = update-Later id r c now m d h
  Step-Later id r _ _ (deleted c other d n) h = delete-Later id r c other d n h

  -- Whatever the clients of the store create, update and delete, short of deleting this row, its version
  -- never falls and its time of creation stays; and as long as its version is the same, the row is.
  pub Steps-Later :
      (id : Bytes) (r : Row B) (d e : Dir B) → Steps id d e → read_row id d ≡ some r → Later id r e
  Steps-Later id r _ _ (stay d) h = (r, h, IsLater-refl r)
  Steps-Later id r _ _ (step {d} {e} {f} x xs) h =
      let (s, found, later) = Step-Later id r d e x h in
      let (t, found_last, later_last) = Steps-Later id s e f xs found in
      (t, found_last, IsLater-trans r s t later later_last)

  -- An update that succeeds follows on the version that stands.
  pub update_parts :
      (ctx_err : Bool) (now : ℕ) (m : Row B) (d : Dir B)
      → (update ctx_err now m d).0 ≡ done tt
      → (old : Row B) × (read_row m.id d ≡ some old) × (old.version + 1 ≡ m.version)
  unfolding update
  update_parts ctx_err now m d h = go ctx_err (is_empty m.id) (read_row m.id d) refl h
    where
      go :
          (c b : Bool) (o : Option (Row B))
          → read_row m.id d ≡ o
          → (if c
              then (refused cancelled, d)
              else if b
              then (refused missing_id, d)
              else update_found now m d o).0
            ≡ done tt
          → (old : Row B) × (read_row m.id d ≡ some old) × (old.version + 1 ≡ m.version)
      go true b o e q = cc
      go false true o e q = cc
      go false false none e q = cc
      go false false (some old) e q = (old, e, ground arith)

  -- No update is lost: a client that read a row, and whose update with the next version succeeds after
  -- any creations, updates and deletions by others that do not delete this row, overwrites just the
  -- row that it read.
  pub update-overwrites_read :
      (r m : Row B) (d e : Dir B) (ctx_err : Bool) (now : ℕ)
      → read_row m.id d ≡ some r
      → Steps m.id d e
      → m.version ≡ r.version + 1
      → (update ctx_err now m e).0 ≡ done tt
      → read_row m.id e ≡ some r
  update-overwrites_read r m d e ctx_err now h steps v q =
      let (old, found, next) = update_parts ctx_err now m e q in
      let (s, found_last, later) = Steps-Later m.id r d e steps h in
      let same : s ≡ old = some_inj s old (sym found_last ∙ found) in
      found_last ∙ ap some (later.same (omega (arith, v, next, ap (λ (x : Row B). x.version) same)))
    where
      some_inj : (a b : Row B) → some a ≡ some b → a ≡ b
      some_inj a b p = cc
