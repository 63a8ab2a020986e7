-- ===== src/Api/Runs.antt =====
-- A preview, its claim, and the list that shows it.
use dns_entree.Base.{ℤ, ◌≡◌, refl, true, List, [], ◌∷◌, none, some}
use dns_entree.Text.{Bytes, codes, str_eq}
use dns_entree.Record.{Record, plain}
use dns_entree.Record.Errors.{other, err}
use dns_entree.Migrate.Scrape.{Zone, empty_zone}
use dns_entree.Migrate.Store.{Dir, read_row}
use dns_entree.Api.Stateful.{Body, Migration, answer, succeeded, Backend, load_and_auth, claim}
use dns_entree.Api.Stateful.Preview.{PreviewRequest, Setting, handle_preview}
use dns_entree.Api.Stateful.Preview.Stored.{IsPreviewed, handle_preview-IsPreviewed}
use dns_entree.Api.Stateful.Lifecycle.{claimed, Server, Reach, here, next, preview, load, claiming}
use dns_entree.Api.Stateful.Lifecycle.Stages.{IsStaged}
use dns_entree.Api.Stateful.Lifecycle.Reachable.{reached_row-IsStaged}

abbrev target : Backend Bytes (List Record)
target = record {
  credentials = some;
  has_adapter = λ s. true;
  ensure_zone = λ slug domain c w. (succeeded (codes "z", codes "ns1.fake" ∷ []), w);
  new_provider = λ slug c. succeeded tt;
  wait = λ w. (succeeded tt, w);
  set_record = λ slug c domain r w. (succeeded tt, r ∷ w);
  instructions = λ source ns. codes "change";
}

abbrev server_key : Bytes
server_key = codes "0123456789abcdef0123456789abcdef"

abbrev setting : Setting Bytes
setting = record {
  migration_key = server_key;
  migration_ttl = ℤ.pos 40;
  print = record { quote = λ s. s; type_name = λ n. []; code_name = λ n. []; text_of = λ e. [] };
  servers = record {
    lookup_ns = λ domain. err (other []);
    address_of = λ host. err (other []);
    transfer = λ domain addr. err (other []);
    exchange = λ addr name qtype. err (other []);
    done = λ name qtype. true;
  };
  lookup_ns = λ domain. none;
  lookup_registrar = λ domain. [];
  marshal = some;
  aead = record { nonce_size = 1; seal = λ key nonce s. s; unseal = λ key nonce s. some s };
  nonce = 7 ∷ [];
  new_migration_id = codes "m1";
  issue_access_token = codes "secret";
}

abbrev zone : Zone
zone = record (empty_zone (codes "a.example") (codes "bind")) {
  records = plain (codes "A") (codes "www.a.example") (codes "1.2.3.4") (ℤ.pos 300) ∷ [];
}

abbrev request : PreviewRequest Bytes
request = record {
  domain = codes "a.example";
  target = codes "fake";
  tenant_id = codes "t";
  target_credentials = codes "key";
  source_nameservers = [];
  labels = [];
  labels_only = [];
  no_axfr = true;
  preloaded_zone = some zone;
}

abbrev previewed : Migration
previewed = record {
  id = codes "m1";
  tenant_id = codes "t";
  status = codes "preview";
  expires_at = 50;
  version = 1;
  created_at = 10;
  updated_at = 10;
  body = record {
    domain = codes "a.example";
    source_slug = [];
    target_slug = codes "fake";
    preview = some zone;
    preview_records = zone.records;
    target_zone_id = [];
    target_nameservers = [];
    apply_results = [];
    ns_change_instructions = [];
    error_message = [];
    credential_blob = 7 ∷ codes "key";
    access_token = codes "secret";
  };
}

abbrev dir : Dir Body
dir = (codes "m1", previewed) ∷ []

preview_run : handle_preview target setting 0 10 request [] ≡ some (answer previewed, dir)
unfolding handle_preview dns_entree.Text.trim_suffix dns_entree.Text.split str_eq
preview_run = refl

handle_preview-IsPreviewed_example :
    IsPreviewed target setting 0 10 request [] (answer previewed, dir)
handle_preview-IsPreviewed_example =
    handle_preview-IsPreviewed target setting 0 10 request [] (answer previewed, dir) preview_run

load_run : load_and_auth 20 (codes "m1") (codes "Bearer secret") dir ≡ answer previewed
unfolding load_and_auth str_eq dns_entree.Text.has_prefix dns_entree.Text.trim_prefix
load_run = refl

abbrev applying : Migration
applying = record previewed { status = codes "applying"; version = 2 }

abbrev after_claim : Server Bytes
after_claim = record {
  store = (codes "m1", record applying { updated_at = 21 }) ∷ [];
  pending = claimed applying (7 ∷ codes "key") ∷ [];
}

claim_reached : Reach target (record { store = []; pending = [] }) after_claim
unfolding claim str_eq
claim_reached =
    next
      (next (next here (preview setting 0 10 request (answer previewed) preview_run))
        (load 20 (codes "m1") (codes "Bearer secret") previewed load_run))
      (claiming [] [] 21 previewed)

row_stands : read_row (codes "m1") after_claim.store ≡ some (record applying { updated_at = 21 })
unfolding read_row str_eq
row_stands = refl

reached_row-IsStaged_example : IsStaged (record applying { updated_at = 21 })
reached_row-IsStaged_example =
    reached_row-IsStaged target (codes "m1") (record applying { updated_at = 21 }) claim_reached
      row_stands
