-- ===== src/Migrate/Store/Served.antt =====
-- The calls of the store on a map from ids to rows, and what each of them answers there.
use dns_entree.Base.{ℕ, suc, ◌<◌, ◌≤◌, ◌≡◌, Bool, true, false, ◌⊎◌, [], Option, none, some}
use dns_entree.Text.{Bytes}
use dns_entree.Migrate.Store.{
  Row, Answer, done, refused, cancelled, missing_id, already_exists, not_found, expired,
  version_mismatch,
}

pub data Call (B : Type 0) : Type 0 where
  create_call update_call : (ctx_err : Bool) → (now : ℕ) → Row B → Call B
  get_call : (ctx_err : Bool) → (now : ℕ) → Bytes → Call B
  delete_call : (ctx_err : Bool) → Bytes → Call B

pub data Reply (B : Type 0) : Type 0 where
  wrote : Answer (Unit {0}) → Reply B
  got : Answer (Row B) → Reply B

abbrev pub RowMap : Type 0 → Type 0
RowMap B = Bytes → Option (Row B)

-- The map after a call holds this at the id, and what it held anywhere else.
abbrev pub Sets : {B : Type 0} → Bytes → Option (Row B) → RowMap B → RowMap B → Type 0
Sets id o f g = (g id ≡ o) × ((x : Bytes) → (id ≡ x → ⊥) → g x ≡ f x)

-- A time or a version of 0 is filled in.
abbrev pub Fills : ℕ → ℕ → ℕ → Type 0
Fills given value result = (given ≡ 0 → result ≡ value) × ((given ≡ 0 → ⊥) → result ≡ given)

-- The row that is kept of a new one.
pub record IsKept {B : Type 0} (now : ℕ) (m w : Row B) : Type 0 where
  pub created : Fills m.created_at now w.created_at
  pub versioned : Fills m.version 1 w.version
  pub updated : w.updated_at ≡ now
  pub rest :
      w ≡ record m { created_at = w.created_at; updated_at = w.updated_at; version = w.version }

-- What a call answers on a map, and the map that it leaves.
pub data Served {B : Type 0} (f : RowMap B) : Call B → Reply B → RowMap B → Type 0 where
  create_cancelled :
      (now : ℕ) (m : Row B) → Served f (create_call true now m) (wrote (refused cancelled)) f
  update_cancelled :
      (now : ℕ) (m : Row B) → Served f (update_call true now m) (wrote (refused cancelled)) f
  get_cancelled :
      (now : ℕ) (id : Bytes) → Served f (get_call true now id) (got (refused cancelled)) f
  delete_cancelled : (id : Bytes) → Served f (delete_call true id) (wrote (refused cancelled)) f
  create_nameless :
      (now : ℕ) (m : Row B)
      → m.id ≡ []
      → Served f (create_call false now m) (wrote (refused missing_id)) f
  create_taken :
      (now : ℕ) (m old : Row B)
      → (m.id ≡ [] → ⊥)
      → f m.id ≡ some old
      → Served f (create_call false now m) (wrote (refused already_exists)) f
  created :
      (now : ℕ) (m w : Row B) (g : RowMap B)
      → (m.id ≡ [] → ⊥)
      → f m.id ≡ none
      → IsKept now m w
      → Sets m.id (some w) f g
      → Served f (create_call false now m) (wrote (done tt)) g
  update_nameless :
      (now : ℕ) (m : Row B)
      → m.id ≡ []
      → Served f (update_call false now m) (wrote (refused missing_id)) f
  update_missing :
      (now : ℕ) (m : Row B)
      → (m.id ≡ [] → ⊥)
      → f m.id ≡ none
      → Served f (update_call false now m) (wrote (refused not_found)) f
  update_stale :
      (now : ℕ) (m old : Row B)
      → (m.id ≡ [] → ⊥)
      → f m.id ≡ some old
      → (m.version ≡ suc old.version → ⊥)
      → Served f (update_call false now m) (wrote (refused version_mismatch)) f
  updated :
      (now : ℕ) (m old : Row B) (g : RowMap B)
      → (m.id ≡ [] → ⊥)
      → f m.id ≡ some old
      → m.version ≡ suc old.version
      → Sets m.id (some (record m { created_at = old.created_at; updated_at = now })) f g
      → Served f (update_call false now m) (wrote (done tt)) g
  get_missing :
      (now : ℕ) (id : Bytes)
      → f id ≡ none
      → Served f (get_call false now id) (got (refused not_found)) f
  get_expired :
      (now : ℕ) (id : Bytes) (r : Row B)
      → f id ≡ some r
      → (r.expires_at ≡ 0 → ⊥)
      → r.expires_at < now
      → Served f (get_call false now id) (got (refused expired)) f
  get_row :
      (now : ℕ) (id : Bytes) (r : Row B)
      → f id ≡ some r
      → (r.expires_at ≡ 0) ⊎ (now ≤ r.expires_at)
      → Served f (get_call false now id) (got (done r)) f
  deleted :
      (id : Bytes) (g : RowMap B)
      → Sets id none f g
      → Served f (delete_call false id) (wrote (done tt)) g
