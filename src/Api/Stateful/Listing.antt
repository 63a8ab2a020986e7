-- ===== src/Api/Stateful/Listing.antt =====
-- What list shows of the migrations.
use mathlib.Core.List.{Perm}
use mathlib.Core.List.Perm
use dns_entree.Base.{ℕ, ◌≤◌, ◌≡◌, refl, true, ◌⊎◌, inl, inr, ◌||◌, List, [], ◌∷◌, map}
use dns_entree.Text.{Bytes, str_eq, str_eq_iff}
use dns_entree.Template.Names.{is_empty}
use dns_entree.Migrate.Store.{Dir, ListFilter}
use dns_entree.Migrate.Store.Listing.{IsSorted}
use dns_entree.Api.Stateful.{Body, Migration}

-- The row has not expired, and matches the tenant and the status where these are given.
pub record IsShown (now : ℕ) (tenant_id status : Bytes) (r : Migration) : Type 0 where
  pub fresh : (r.expires_at ≡ 0) ⊎ (now ≤ r.expires_at)
  pub of_tenant : (tenant_id ≡ []) ⊎ (r.tenant_id ≡ tenant_id)
  pub in_status : (status ≡ []) ⊎ (r.status ≡ status)

-- The rows of a directory that are shown.
pub data Picks (P : Migration → Type 0) : Dir Body → List Migration → Type 0 where
  nothing : Picks P [] []
  shown :
      (key : Bytes) (r : Migration) {d : Dir Body} {rows : List Migration}
      → P r
      → Picks P d rows
      → Picks P ((key, r) ∷ d) (r ∷ rows)
  hidden :
      (key : Bytes) (r : Migration) {d : Dir Body} {rows : List Migration}
      → (P r → ⊥)
      → Picks P d rows
      → Picks P ((key, r) ∷ d) rows

abbrev pub without_secrets : Migration → Migration
without_secrets r = record r { body = record r.body { credential_blob = []; access_token = [] } }

-- The rows that are shown, each as often as it stands in the directory, in the order of their
-- creation and without their secrets.
pub record IsListing (now : ℕ) (tenant_id status : Bytes) (d : Dir Body) (rows : List Migration)
    : Type 0 where
  pub picked : List Migration
  pub picks : Picks (IsShown now tenant_id status) d picked
  pub ordered : List Migration
  pub same : Perm picked ordered
  pub sorted : IsSorted ordered
  pub redacted : rows ≡ map without_secrets ordered

module _ (now : ℕ) (tenant_id status : Bytes) where
  asked : ListFilter
  asked = record { tenant_id = tenant_id; status = status; limit = 0; offset = 0 }

  -- The empty text matches every value.
  matches :
      (given x : Bytes) → (is_empty given || str_eq x given) ≡ true → (given ≡ []) ⊎ (x ≡ given)
  unfolding is_empty
  matches [] x h = inl refl
  matches (c ∷ given) x h = inr ((str_eq_iff x (c ∷ given)).0 h)
