-- ===== src/Api/Rows.antt =====
-- api/handlers_migrate_stateful.go and migrate/store.go: a stored migration, its loading with the bearer
-- token (`loadAndAuth`), and the parts that the handlers share.
use dns_entree.Base.{ℕ, ◌+◌, false, List, [], Option, if◌then◌else◌}
use dns_entree.Text.{Bytes, codes, str_eq, has_prefix, trim_prefix}
use dns_entree.Record.{Record}
use dns_entree.Push.Steps.{PushStatus}
use dns_entree.Template.Names.{is_empty}
use dns_entree.Migrate.Scrape.{Zone}
use dns_entree.Migrate.Store.{
  Row, Dir, Answer, done, refused, cancelled, missing_id, already_exists, not_found,
  version_mismatch, expired, get, is_expired,
}

pub record ApplyResult : Type 0 where
  pub record_name : Bytes
  pub record_value : Bytes
  pub status : PushStatus
  pub error : Option Bytes

-- The fields of a stored migration that the store does not read.
pub record Body : Type 0 where
  pub domain : Bytes
  pub source_slug : Bytes
  pub target_slug : Bytes
  pub preview : Option Zone
  pub preview_records : List Record
  pub target_zone_id : Bytes
  pub target_nameservers : List Bytes
  pub apply_results : List ApplyResult
  pub ns_change_instructions : Bytes
  pub error_message : Bytes
  pub credential_blob : Bytes
  pub access_token : Bytes

abbrev pub Migration : Type 0
Migration = Row Body

-- The HTTP status and code of an error.
pub data Refusal : Type 0 where
  bad_request internal no_such_migration gone unauthorized conflict : Refusal

pub data Handled {ℓ} (A : Type ℓ) : Type ℓ where
  answer : A → Handled A
  refuse : Refusal → Handled A

-- `err.Error()` where a call fails.
pub data Attempt {ℓ} (A : Type ℓ) : Type ℓ where
  succeeded : A → Attempt A
  failed_with : Bytes → Attempt A

abbrev pub bearer : Bytes
bearer = codes "Bearer "

unfoldable pub extract_bearer : Bytes → Bytes
extract_bearer h = if has_prefix h bearer then trim_prefix h bearer else []

unfoldable pub check_token : Bytes → Migration → Handled Migration
unfolding is_empty
check_token token row =
    if is_empty token
    then refuse unauthorized
    else if str_eq token row.body.access_token
    then answer row
    else refuse unauthorized

abbrev pub loaded : ℕ → Bytes → Answer Migration → Handled Migration
loaded now token (refused not_found) = refuse no_such_migration
loaded now token (refused expired) = refuse gone
loaded now token (refused cancelled) = refuse internal
loaded now token (refused missing_id) = refuse internal
loaded now token (refused already_exists) = refuse internal
loaded now token (refused version_mismatch) = refuse internal
loaded now token (done row) = if is_expired now row then refuse gone else check_token token row

unfoldable pub load_and_auth : ℕ → Bytes → Bytes → Dir Body → Handled Migration
unfolding is_empty get check_token is_expired extract_bearer
load_and_auth now id header d =
    if is_empty id
    then refuse bad_request
    else loaded now (extract_bearer header) (get false now id d)

-- `row.Status = …; row.Version++`.
unfoldable pub moved : Bytes → Migration → Migration
moved status row = record row { status = status; version = row.version + 1 }

-- What a handler answers where its update is refused.
abbrev pub after_update {ℓ} : {A : Type ℓ} → A → Answer (Unit {0}) × Dir Body → Handled A × Dir Body
after_update a (done _, d) = (answer a, d)
after_update a (refused version_mismatch, d) = (refuse conflict, d)
after_update a (refused cancelled, d) = (refuse internal, d)
after_update a (refused missing_id, d) = (refuse internal, d)
after_update a (refused already_exists, d) = (refuse internal, d)
after_update a (refused not_found, d) = (refuse internal, d)
after_update a (refused expired, d) = (refuse internal, d)

unfoldable pub failed_row : Bytes → Migration → Migration
unfolding moved
failed_row msg row =
    moved (codes "failed") (record row { body = record row.body { error_message = msg } })
