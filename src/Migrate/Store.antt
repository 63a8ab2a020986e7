-- ===== src/Migrate/Store.antt =====
-- migrate/store.go and store_json.go: rows of stateful migrations, one file each, with optimistic
-- locking. Each operation holds the lock of its row, so it is one step on the directory.
pub mod Rows
pub mod Locking
pub mod Listing
pub mod Served
pub mod Replay
use dns_entree.Base.{
  ℕ, ◌+◌, Bool, true, false, ◌&&◌, ◌||◌, not, List, [], ◌∷◌, ◌++◌, map, Option, none, some,
  if◌then◌else◌, ltb, leb, ◌==◌, length, take, drop,
}
use dns_entree.Text.{Bytes, codes, str_eq}
use dns_entree.Template.Names.{is_empty}

pub data StoreError : Type 0 where
  cancelled missing_id already_exists not_found version_mismatch expired : StoreError

pub data Answer {ℓ} (A : Type ℓ) : Type ℓ where
  done : A → Answer A
  refused : StoreError → Answer A

-- `StoredMigration`: times are counted from the zero time, and `body` holds the fields that the store
-- does not read.
pub record Row (B : Type 0) : Type 0 where
  pub id : Bytes
  pub tenant_id : Bytes
  pub status : Bytes
  pub expires_at : ℕ
  pub version : ℕ
  pub created_at : ℕ
  pub updated_at : ℕ
  pub body : B

pub record ListFilter : Type 0 where
  pub tenant_id : Bytes
  pub status : Bytes
  pub limit : ℕ
  pub offset : ℕ

-- The files of the state directory, by the id in their names. No id is taken to start with a dot: List
-- and SweepExpired skip such files. Ids are UUIDs.
abbrev pub Dir : Type 0 → Type 0
Dir B = List (Bytes × Row B)

module _ {B : Type 0} where
  unfoldable pub read_row : Bytes → Dir B → Option (Row B)
  read_row id [] = none
  read_row id ((k, r) ∷ d) = if str_eq k id then some r else read_row id d

  unfoldable pub write_row : Row B → Dir B → Dir B
  write_row m [] = (m.id, m) ∷ []
  write_row m ((k, r) ∷ d) =
      let rest = write_row m d in if str_eq k m.id then (k, m) ∷ d else (k, r) ∷ rest

  unfoldable pub remove_row : Bytes → Dir B → Dir B
  remove_row id [] = []
  remove_row id ((k, r) ∷ d) =
      let rest = remove_row id d in if str_eq k id then rest else (k, r) ∷ rest

  -- `!m.ExpiresAt.IsZero() && m.ExpiresAt.Before(now)`.
  unfoldable pub is_expired : ℕ → Row B → Bool
  is_expired now r = not (r.expires_at == 0) && ltb r.expires_at now

  unfoldable pub stamped : ℕ → Row B → Row B
  stamped now m = record m {
    created_at = if m.created_at == 0 then now else m.created_at;
    updated_at = now;
    version = if m.version == 0 then 1 else m.version;
  }

  abbrev pub create_absent : ℕ → Row B → Dir B → Option (Row B) → Answer (Unit {0}) × Dir B
  create_absent now m d (some old) = (refused already_exists, d)
  create_absent now m d none = (done tt, write_row (stamped now m) d)

  -- `ctx_err` is true where the context is done.
  unfoldable pub create : Bool → ℕ → Row B → Dir B → Answer (Unit {0}) × Dir B
  unfolding is_empty read_row write_row stamped
  create ctx_err now m d =
      if ctx_err
      then (refused cancelled, d)
      else if is_empty m.id
      then (refused missing_id, d)
      else create_absent now m d (read_row m.id d)

  abbrev pub get_found : ℕ → Option (Row B) → Answer (Row B)
  get_found now none = refused not_found
  get_found now (some r) = if is_expired now r then refused expired else done r

  unfoldable pub get : Bool → ℕ → Bytes → Dir B → Answer (Row B)
  unfolding read_row is_expired
  get ctx_err now id d = if ctx_err then refused cancelled else get_found now (read_row id d)

  abbrev pub update_found : ℕ → Row B → Dir B → Option (Row B) → Answer (Unit {0}) × Dir B
  update_found now m d none = (refused not_found, d)
  update_found now m d (some old) =
      if old.version + 1 == m.version
      then (done tt, write_row (record m { created_at = old.created_at; updated_at = now }) d)
      else (refused version_mismatch, d)

  unfoldable pub update : Bool → ℕ → Row B → Dir B → Answer (Unit {0}) × Dir B
  unfolding is_empty read_row write_row
  update ctx_err now m d =
      if ctx_err
      then (refused cancelled, d)
      else if is_empty m.id
      then (refused missing_id, d)
      else update_found now m d (read_row m.id d)

  unfoldable pub delete : Bool → Bytes → Dir B → Answer (Unit {0}) × Dir B
  unfolding remove_row
  delete ctx_err id d = if ctx_err then (refused cancelled, d) else (done tt, remove_row id d)

  unfoldable pub is_listed : ℕ → ListFilter → Row B → Bool
  unfolding is_expired is_empty
  is_listed now f r =
      not (is_expired now r)
      && ((is_empty f.tenant_id || str_eq r.tenant_id f.tenant_id)
          && (is_empty f.status || str_eq r.status f.status))

  unfoldable pub listed : ℕ → ListFilter → Dir B → List (Row B)
  unfolding is_listed
  listed now f [] = []
  listed now f ((k, r) ∷ d) =
      let rest = listed now f d in if is_listed now f r then r ∷ rest else rest

  -- `sort.Slice` by the time of creation. Rows created at one time keep the order of the directory,
  -- as Go's sort does up to twelve rows; beyond that it leaves their order open.
  unfoldable pub insert_row : Row B → List (Row B) → List (Row B)
  insert_row r [] = r ∷ []
  insert_row r (s ∷ rs) =
      let rest = insert_row r rs in if ltb s.created_at r.created_at then s ∷ rest else r ∷ s ∷ rs

  unfoldable pub sort_rows : List (Row B) → List (Row B)
  unfolding insert_row
  sort_rows [] = []
  sort_rows (r ∷ rs) = insert_row r (sort_rows rs)

  unfoldable pub page : ListFilter → List (Row B) → List (Row B)
  page f rows =
      let rest = drop f.offset rows in
      if ltb 0 f.offset && leb (length rows) f.offset
      then []
      else if ltb 0 f.limit && ltb f.limit (length rest)
      then take f.limit rest
      else rest

  unfoldable pub list : Bool → ℕ → ListFilter → Dir B → Answer (List (Row B))
  unfolding listed sort_rows page
  list ctx_err now f d =
      if ctx_err then refused cancelled else done (page f (sort_rows (listed now f d)))

  -- The rows that are left, and how many were deleted.
  unfoldable pub sweep : ℕ → Dir B → ℕ × Dir B
  unfolding is_expired
  sweep before [] = (0, [])
  sweep before ((k, r) ∷ d) =
      let rest = sweep before d in
      if is_expired before r then (rest.0 + 1, rest.1) else (rest.0, (k, r) ∷ rest.1)

  unfoldable pub sweep_expired : Bool → ℕ → Dir B → Answer ℕ × Dir B
  unfolding sweep
  sweep_expired ctx_err before d =
      if ctx_err then (refused cancelled, d) else (done (sweep before d).0, (sweep before d).1)
