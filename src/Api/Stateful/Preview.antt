-- ===== src/Api/Stateful/Preview.antt =====
-- api/handlers_migrate_stateful.go: `handleMigratePreview`, which scrapes a zone and stores a migration.
pub mod Stored
use dns_entree.Base.{
  ℕ, ◌+◌, ◌*◌, ◌^◌, ℤ, Bool, false, List, Option, none, some, if◌then◌else◌, not, ◌==◌, ◌||◌,
  length, zero, suc, [], ◌∷◌,
}
use dns_entree.Text.{Bytes, codes}
use dns_entree.Record.Errors.{Result, ok, err}
use dns_entree.Template.Names.{is_empty}
use dns_entree.Validate.{validate_dns_name}
use dns_entree.Detect.{DetectionResult, detect_provider}
use dns_entree.Migrate.Crypt.{Aead, encrypt_creds}
use dns_entree.Migrate.Scrape.{Zone}
use dns_entree.Migrate.Scrape.Source.{ScrapeOptions, Servers, Printer, scrape_zone}
use dns_entree.Migrate.Store.{Dir, Answer, done, refused, create}
use dns_entree.Api.Stateful.{
  Body, Migration, Refusal, bad_request, internal, Handled, answer, refuse, Backend,
}

-- The body of the request, decoded.
pub record PreviewRequest (C : Type 0) : Type 0 where
  pub domain : Bytes
  pub target : Bytes
  pub tenant_id : Bytes
  pub target_credentials : C
  pub source_nameservers : List Bytes
  pub labels : List Bytes
  pub labels_only : List Bytes
  pub no_axfr : Bool
  pub preloaded_zone : Option Zone

-- The key and the time to live of the server, and what the handler calls: the network, JSON, the
-- cipher, and the random bytes of the nonce, the id and the token.
pub record Setting (C : Type 0) : Type 0 where
  pub migration_key : Bytes
  pub migration_ttl : ℤ
  pub print : Printer
  pub servers : Servers
  pub lookup_ns : Bytes → Option (List Bytes)
  pub lookup_registrar : Bytes → Bytes
  pub marshal : C → Option Bytes
  pub aead : Aead
  pub nonce : Bytes
  pub new_migration_id : Bytes
  pub issue_access_token : Bytes

abbrev pub scrape_options : {C : Type 0} → PreviewRequest C → ScrapeOptions
scrape_options req = record {
  nameservers = req.source_nameservers;
  extra_labels = req.labels;
  only_labels = req.labels_only;
  skip_axfr = req.no_axfr;
}

-- In nanoseconds.
abbrev pub hour : ℕ
hour = 3600 * 10 ^ 9

abbrev pub ttl_or_hour : ℤ → ℕ
ttl_or_hour (ℤ.pos zero) = hour
ttl_or_hour (ℤ.pos (suc n)) = suc n
ttl_or_hour (ℤ.negsuc n) = hour

abbrev pub source_slug_of : Option DetectionResult → Bytes
source_slug_of none = []
source_slug_of (some det) = det.provider

module _ {C W : Type 0} (b : Backend C W) (e : Setting C) where
  unfoldable pub preview_row : ℕ → PreviewRequest C → Zone → Bytes → Migration
  unfolding detect_provider
  preview_row now req zone blob = record {
    id = e.new_migration_id;
    tenant_id = req.tenant_id;
    status = codes "preview";
    expires_at = now + ttl_or_hour e.migration_ttl;
    version = 1;
    created_at = now;
    updated_at = now;
    body = record {
      domain = req.domain;
      source_slug = source_slug_of (detect_provider e.lookup_ns e.lookup_registrar req.domain);
      target_slug = req.target;
      preview = some zone;
      preview_records = zone.records;
      target_zone_id = [];
      target_nameservers = [];
      apply_results = [];
      ns_change_instructions = [];
      error_message = [];
      credential_blob = blob;
      access_token = e.issue_access_token;
    };
  }

  abbrev pub after_create : Migration → Answer (Unit {0}) × Dir Body → Handled Migration × Dir Body
  after_create row (refused x, d) = (refuse internal, d)
  after_create row (done _, d) = (answer row, d)

  abbrev pub store_sealed :
      ℕ → PreviewRequest C → Zone → Dir Body → Result Bytes → Handled Migration × Dir Body
  store_sealed now req zone d (err x) = (refuse internal, d)
  store_sealed now req zone d (ok blob) =
      let row = preview_row now req zone blob in after_create row (create false now row d)

  abbrev pub store_marshalled :
      ℕ → PreviewRequest C → Zone → Dir Body → Option Bytes → Handled Migration × Dir Body
  store_marshalled now req zone d none = (refuse internal, d)
  store_marshalled now req zone d (some json) =
      store_sealed now req zone d (encrypt_creds e.aead e.nonce e.migration_key json)

  abbrev pub store_zone :
      ℕ → PreviewRequest C → Dir Body → Result Zone → Handled Migration × Dir Body
  store_zone now req d (err x) = (refuse internal, d)
  store_zone now req d (ok zone) =
      store_marshalled now req zone d (e.marshal req.target_credentials)

  abbrev pub zone_for : ℕ → PreviewRequest C → Option Zone → Option (Result Zone)
  zone_for fuel req (some zone) = some (ok zone)
  zone_for fuel req none = scrape_zone e.print e.servers fuel req.domain (scrape_options req)

  abbrev pub then_store :
      ℕ → PreviewRequest C → Dir Body → Option (Result Zone) → Option (Handled Migration × Dir Body)
  then_store now req d none = none
  then_store now req d (some zone) = some (store_zone now req d zone)

  unfoldable pub is_refused_request : PreviewRequest C → Bool
  unfolding is_empty validate_dns_name
  is_refused_request req =
      is_empty req.domain
      || (not (validate_dns_name req.domain)
          || (is_empty req.target || not (b.has_adapter req.target)))

  -- The fuel is that of the scrape.
  unfoldable pub handle_preview :
      (fuel now : ℕ) → PreviewRequest C → Dir Body → Option (Handled Migration × Dir Body)
  unfolding is_refused_request preview_row encrypt_creds scrape_zone create
  handle_preview fuel now req d =
      if is_refused_request req
      then some (refuse bad_request, d)
      else if not (length e.migration_key == 32)
      then some (refuse internal, d)
      else then_store now req d (zone_for fuel req req.preloaded_zone)
