-- ===== src/Api/Stateful.antt =====
-- api/handlers_migrate_stateful.go: apply, verify, get, list and delete of a stored migration; its child
-- Preview creates one. A handler is split where other requests can come between its calls of the store.
pub mod Preview
pub mod Lifecycle
pub mod Auth
pub mod Updates
pub mod Claim
pub mod Answers
pub mod Listing
pub mod Lost
pub mod Applied
pub use dns_entree.Api.Rows.{
  ApplyResult, Body, Migration, Refusal, bad_request, internal, no_such_migration, gone,
  unauthorized, conflict, Handled, answer, refuse, Attempt, succeeded, failed_with, loaded,
  after_update,
}
unfoldable pub use dns_entree.Api.Rows.{
  extract_bearer, check_token, load_and_auth, moved, failed_row,
}
use dns_entree.Base.{
  ℕ, ◌+◌, Bool, true, false, ◌&&◌, ◌||◌, not, List, [], ◌∷◌, ◌++◌, map, Option, none, some,
  if◌then◌else◌, any, ltb, ◌==◌, length,
}
use dns_entree.Text.{Bytes, codes, str_eq, has_prefix, trim_prefix}
use dns_entree.Record.{Record}
use dns_entree.Push.Steps.{PushStatus, failed, updated}
use dns_entree.Template.Names.{is_empty}
use dns_entree.Migrate.Scrape.{Zone}
use dns_entree.Migrate.Store.{
  ListFilter, list, Row, Dir, Answer, StoreError, done, refused, cancelled, missing_id,
  already_exists, not_found, version_mismatch, expired, get, update, delete, is_expired,
}

-- The row after the provider's work: `broken` where no record was tried, and the update's own
-- error is then ignored.
pub data Worked : Type 0 where
  broken applied : Migration → Worked

-- Decrypting and decoding the credentials, the registry of adapters, the calls of the target provider
-- (with its state), the rate limiter, and the text of the instructions.
pub record Backend (C W : Type 0) : Type 0 where
  pub credentials : Bytes → Option C
  pub has_adapter : Bytes → Bool
  pub ensure_zone : Bytes → Bytes → C → W → Attempt (Bytes × List Bytes) × W
  pub new_provider : Bytes → C → Attempt (Unit {0})
  pub wait : W → Attempt (Unit {0}) × W
  pub set_record : Bytes → C → Bytes → Record → W → Attempt (Unit {0}) × W
  pub instructions : Bytes → List Bytes → Bytes

module _ {C W : Type 0} (b : Backend C W) where
  abbrev claim_with : ℕ → Migration → Dir Body → Option C → Handled (Migration × C) × Dir Body
  claim_with now row d none = (refuse internal, d)
  claim_with now row d (some c) =
      if b.has_adapter row.body.target_slug
      then after_update (moved (codes "applying") row, c)
          (update false now (moved (codes "applying") row) d)
      else (refuse internal, d)

  abbrev claim_loaded : ℕ → Dir Body → Handled Migration → Handled (Migration × C) × Dir Body
  claim_loaded now d (refuse e) = (refuse e, d)
  claim_loaded now d (answer row) =
      if str_eq row.status (codes "preview")
      then claim_with now row d (b.credentials row.body.credential_blob)
      else (refuse conflict, d)

  -- The part of apply up to the first call of the provider: preview -> applying.
  unfoldable pub claim : ℕ → Migration → Dir Body → Handled (Migration × C) × Dir Body
  unfolding update moved
  claim now row d = claim_loaded now d (answer row)

  -- One record of the loop; the first error is kept, and an error of the limiter ends the loop.
  abbrev result_of : Record → Attempt (Unit {0}) → ApplyResult
  result_of r (succeeded _) = record {
    record_name = r.name;
    record_value = r.content;
    status = updated;
    error = none;
  }
  result_of r (failed_with e) = record {
    record_name = r.name;
    record_value = r.content;
    status = failed;
    error = some e;
  }

  abbrev first_of : Bytes → Attempt (Unit {0}) → Bytes
  first_of first (succeeded _) = first
  first_of first (failed_with e) = if is_empty first then e else first

  abbrev Looped : Type 0
  Looped = List ApplyResult × (Bytes × W)

  abbrev put : Record → (Bytes → W → Looped) → Bytes → Attempt (Unit {0}) × W → Looped
  put r rest first (a, w) = let l = rest (first_of first a) w in (result_of r a ∷ l.0, l.1)

  abbrev waited : (W → Looped) → Attempt (Unit {0}) × W → Looped
  waited go (succeeded _, w) = go w
  waited go (failed_with e, w) = ([], (e, w))

  unfoldable pub write_records : Bytes → C → Bytes → List Record → Bytes → W → Looped
  unfolding is_empty
  write_records slug c domain [] first w = ([], (first, w))
  write_records slug c domain (r ∷ rs) first w =
      waited (λ v. put r (write_records slug c domain rs) first (b.set_record slug c domain r v))
        (b.wait w)

  unfoldable pub with_zone : Bytes × List Bytes → Migration → Migration
  with_zone z row = record row {
    body = record row.body {
      target_zone_id = z.0;
      target_nameservers = z.1;
      ns_change_instructions = b.instructions row.body.source_slug z.1;
    };
  }

  unfoldable pub with_results : Migration → Looped → Worked × W
  unfolding failed_row moved is_empty
  with_results row l =
      let written : Migration = record row { body = record row.body { apply_results = l.0 } } in
      (
        applied (
            if is_empty l.1.0
            then moved (codes "awaiting_ns_change") written
            else failed_row l.1.0 written),
        l.1.1,
      )

  abbrev push_all : Migration → C → W → Attempt (Unit {0}) → Worked × W
  push_all row c w (failed_with e) = (broken (failed_row e row), w)
  push_all row c w (succeeded _) =
      with_results row
        (write_records row.body.target_slug c row.body.domain row.body.preview_records [] w)

  abbrev zone_ensured : Migration → C → Attempt (Bytes × List Bytes) × W → Worked × W
  zone_ensured row c (failed_with e, w) = (broken (failed_row e row), w)
  zone_ensured row c (succeeded z, w) =
      push_all (with_zone z row) c w (b.new_provider row.body.target_slug c)

  unfoldable pub work : Migration → C → W → Worked × W
  unfolding failed_row with_zone with_results write_records
  work row c w = zone_ensured row c (b.ensure_zone row.body.target_slug row.body.domain c w)

  -- The final update of apply.
  unfoldable pub finish : ℕ → Worked → Dir Body → Handled Migration × Dir Body
  unfolding update
  finish now (broken row) d = (refuse internal, (update false now row d).1)
  finish now (applied row) d = after_update row (update false now row d)

  abbrev run_claimed :
      ℕ → W → Handled (Migration × C) × Dir Body → Handled Migration × (Dir Body × W)
  run_claimed now w (refuse e, d) = (refuse e, (d, w))
  run_claimed now w (answer (row, c), d) =
      let worked = work row c w in let last = finish now worked.0 d in (last.0, (last.1, worked.1))

  -- `handleMigrateApply` with no other request in between, by one reading of the clock.
  unfoldable pub handle_apply :
      ℕ → Bytes → Bytes → Dir Body → W → Handled Migration × (Dir Body × W)
  unfolding load_and_auth claim work finish
  handle_apply now id header d w =
      run_claimed now w (claim_loaded now d (load_and_auth now id header d))

-- `VerifyAgainstNS`: how many records match, of how many.
abbrev pub VerifyNs : Type 0
VerifyNs = List Bytes → List Record → ℕ × ℕ

unfoldable pub is_verifiable : Bytes → Bool
is_verifiable s =
    any (str_eq s)
      (codes "applying" ∷ codes "awaiting_ns_change" ∷ codes "verifying" ∷ codes "complete" ∷ [])

unfoldable pub verified_status : ℕ × ℕ → Bytes
verified_status (matched, total) =
    if ltb 0 total && matched == total then codes "complete" else codes "verifying"

abbrev pub verify_loaded :
    VerifyNs → ℕ → Dir Body → Handled Migration → Handled Migration × Dir Body
verify_loaded verify now d (refuse e) = (refuse e, d)
verify_loaded verify now d (answer row) =
    let next =
      moved (verified_status (verify row.body.target_nameservers row.body.preview_records)) row in
    if is_verifiable row.status
    then after_update next (update false now next d)
    else (refuse conflict, d)

unfoldable pub handle_verify :
    VerifyNs → ℕ → Bytes → Bytes → Dir Body → Handled Migration × Dir Body
unfolding load_and_auth is_verifiable verified_status moved update
handle_verify verify now id header d = verify_loaded verify now d (load_and_auth now id header d)

unfoldable pub redact_creds : Migration → Migration
redact_creds row = record row { body = record row.body { credential_blob = []; access_token = [] } }

abbrev pub get_loaded : Handled Migration → Handled Migration
get_loaded (refuse e) = refuse e
get_loaded (answer row) = answer (redact_creds row)

unfoldable pub handle_get : ℕ → Bytes → Bytes → Dir Body → Handled Migration
unfolding load_and_auth redact_creds
handle_get now id header d = get_loaded (load_and_auth now id header d)

abbrev pub delete_loaded : Dir Body → Handled Migration → Handled (Unit {0}) × Dir Body
delete_loaded d (refuse e) = (refuse e, d)
delete_loaded d (answer row) = (answer tt, (delete false row.id d).1)

unfoldable pub handle_delete : ℕ → Bytes → Bytes → Dir Body → Handled (Unit {0}) × Dir Body
unfolding load_and_auth delete
handle_delete now id header d = delete_loaded d (load_and_auth now id header d)

unfoldable pub redact_all : Answer (List Migration) → Handled (List Migration)
unfolding redact_creds
redact_all (refused e) = refuse internal
redact_all (done rows) = answer (map redact_creds rows)

-- No bearer token is asked for.
unfoldable pub handle_list : ℕ → Bytes → Bytes → Dir Body → Handled (List Migration)
unfolding list redact_all
handle_list now tenant_id status d =
    redact_all
      (list false now (record { tenant_id = tenant_id; status = status; limit = 0; offset = 0 }) d)

abbrev pub migrate_path : Bytes
migrate_path = codes "/v1/migrate/"

abbrev pub before_slash : Bytes → Bytes
before_slash [] = []
before_slash (c ∷ s) = let rest = before_slash s in if c == b'/' then [] else c ∷ rest

-- The segment behind `/v1/migrate/`, the empty text on another path.
unfoldable pub extract_path_id : Bytes → Bytes
extract_path_id path =
    if has_prefix path migrate_path then before_slash (trim_prefix path migrate_path) else []
