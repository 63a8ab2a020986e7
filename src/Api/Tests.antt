-- ===== src/Api/Tests.antt =====
-- Runs of the handlers, and their theorems at a concrete migration.
use dns_entree.Base.{ℤ, ◌≡◌, refl, true, false, List, [], ◌∷◌, none, some}
use dns_entree.Text.{Bytes, codes, str_eq}
use dns_entree.Record.{Record, plain}
use dns_entree.Migrate.Store.{Dir, done, update}
use dns_entree.Migrate.Store.Locking.{stay}
use dns_entree.Api.Stateful.{
  Body, Migration, answer, refuse, conflict, succeeded, Backend, applied, load_and_auth, claim,
  work, finish, handle_verify, handle_get, redact_creds, VerifyNs,
}
use dns_entree.Api.Stateful.Auth.{IsAuthorized, load_and_auth-IsAuthorized}
use dns_entree.Api.Stateful.Claim.{claim-once}
use dns_entree.Api.Stateful.Applied.{HasMessages, IsComplete, work-IsComplete}
use dns_entree.Api.Stateful.Answers.{IsVerified, handle_verify-IsVerified, handle_get-IsAuthorized}
use dns_entree.Api.Stateful.Lost.{finish-refused}

abbrev body : Body
body = record {
  domain = codes "a.example";
  source_slug = [];
  target_slug = codes "fake";
  preview = none;
  preview_records = plain (codes "A") (codes "www") (codes "1.2.3.4") (ℤ.pos 300) ∷ [];
  target_zone_id = [];
  target_nameservers = [];
  apply_results = [];
  ns_change_instructions = [];
  error_message = [];
  credential_blob = codes "blob";
  access_token = codes "secret";
}

abbrev preview : Migration
preview = record {
  id = codes "m1";
  tenant_id = [];
  status = codes "preview";
  expires_at = 50;
  version = 1;
  created_at = 5;
  updated_at = 5;
  body = body;
}

abbrev dir : Dir Body
dir = (codes "m1", preview) ∷ []

-- A provider that accepts everything, and keeps the records as its state.
abbrev target : Backend Bytes (List Record)
target = record {
  credentials = some;
  has_adapter = λ s. true;
  ensure_zone = λ slug domain c w. (succeeded (codes "z", codes "ns1.fake" ∷ []), w);
  new_provider = λ slug c. succeeded tt;
  wait = λ w. (succeeded tt, w);
  set_record = λ slug c domain r w. (succeeded tt, r ∷ w);
  instructions = λ source ns. codes "change";
}

load_run : load_and_auth 10 (codes "m1") (codes "Bearer secret") dir ≡ answer preview
unfolding load_and_auth str_eq dns_entree.Text.has_prefix dns_entree.Text.trim_prefix
load_run = refl

load_and_auth-IsAuthorized_example :
    IsAuthorized 10 (codes "m1") (codes "Bearer secret") dir preview
load_and_auth-IsAuthorized_example =
    load_and_auth-IsAuthorized 10 (codes "m1") (codes "Bearer secret") dir preview load_run

abbrev applying : Migration
applying = record preview { status = codes "applying"; version = 2 }

abbrev stored : Migration
stored = record applying { updated_at = 11 }

abbrev claimed : Dir Body
claimed = (codes "m1", stored) ∷ []

claim_run : claim target 11 preview dir ≡ (answer (applying, codes "blob"), claimed)
unfolding claim str_eq
claim_run = refl

claim-once_example : claim target 12 preview claimed ≡ (refuse conflict, claimed)
claim-once_example =
    claim-once target 11 12 preview applying (codes "blob") dir claimed claimed claim_run
      (stay claimed)

abbrev matching : VerifyNs
matching ns rs = (1, 1)

abbrev complete : Migration
complete = record stored { status = codes "complete"; version = 3 }

abbrev verified : Dir Body
verified = (codes "m1", record complete { updated_at = 13 }) ∷ []

verify_run :
    handle_verify matching 13 (codes "m1") (codes "Bearer secret") claimed
    ≡ (answer complete, verified)
unfolding handle_verify str_eq dns_entree.Text.has_prefix dns_entree.Text.trim_prefix
verify_run = refl

handle_verify_case :
    (row : Migration) × IsAuthorized 13 (codes "m1") (codes "Bearer secret") claimed row
    × IsVerified matching row complete
handle_verify_case =
    handle_verify-IsVerified matching 13 (codes "m1") (codes "Bearer secret") claimed verified
      complete verify_run

-- The verification that came in between makes the running apply fail.
update_run : update false 13 complete claimed ≡ (done tt, verified)
unfolding update str_eq
update_run = refl

abbrev awaiting : Migration
awaiting = record applying {
  status = codes "awaiting_ns_change";
  version = 3;
  body = record body {
    target_zone_id = codes "z";
    target_nameservers = codes "ns1.fake" ∷ [];
    ns_change_instructions = codes "change";
    apply_results =
        record {
          record_name = codes "www";
          record_value = codes "1.2.3.4";
          status = dns_entree.Push.Steps.PushStatus.updated;
          error = none;
        }
        ∷ [];
  };
}

work_run : (work target applying (codes "blob") []).0 ≡ applied awaiting
unfolding work
work_run = refl

finish_case : finish target 14 (applied awaiting) verified ≡ (refuse conflict, verified)
finish_case =
    finish-refused target 11 13 14 preview applying complete awaiting (codes "blob") [] dir claimed
      verified claim_run refl update_run work_run

get_run : handle_get 10 (codes "m1") (codes "Bearer secret") dir ≡ answer (redact_creds preview)
unfolding handle_get str_eq dns_entree.Text.has_prefix dns_entree.Text.trim_prefix
get_run = refl

get-IsAuthorized :
    (row : Migration) × IsAuthorized 10 (codes "m1") (codes "Bearer secret") dir row
    × (redact_creds preview ≡ redact_creds row)
    × ((redact_creds preview).body.access_token ≡ [])
    × ((redact_creds preview).body.credential_blob ≡ [])
get-IsAuthorized =
    handle_get-IsAuthorized 10 (codes "m1") (codes "Bearer secret") dir (redact_creds preview)
      get_run

target-HasMessages : HasMessages target
target-HasMessages = record { waiting = λ w e q. cc; setting = λ slug c domain r w e q. cc }

work-IsComplete_example :
    IsComplete target applying (codes "blob") [] (work target applying (codes "blob") []).1 awaiting
work-IsComplete_example =
    work-IsComplete target applying (codes "blob") [] awaiting target-HasMessages work_run refl
