-- ===== src/Migrate/Run/Tests.antt =====
-- A migration of two records to a provider in memory, with one record seen in the second round.
use dns_entree.Base.{
  ℕ, ℤ, ◌≡◌, refl, true, false, List, [], ◌∷◌, ◌++◌, none, some, map, if◌then◌else◌, ◌==◌,
}
use dns_entree.Text.{Bytes, codes, str_eq}
use dns_entree.Record.{Record, Provider, plain}
use dns_entree.Record.Errors.{ok}
use dns_entree.Migrate.Scrape.{Zone}
use dns_entree.Migrate.Target.{Checked, silent}
use dns_entree.Migrate.Run.{
  matched, not_yet_propagated, found, timed_out, ZoneInfo, verify_rounds, sanitize_err,
}
use dns_entree.Migrate.Run.Main.{MigrateOptions, migrate}
use dns_entree.Migrate.Run.Rounds.{tally, fate, verify_rounds-fate}
use dns_entree.Migrate.Run.Laws.{IsMigrated, migrate-IsMigrated}
use dns_entree.Migrate.Run.Dry.{IsOnlyEnsured, migrate-IsPreview}

abbrev memory : Provider (List Record)
memory = record {
  get_records = λ domain t s. (ok s, s);
  set_record = λ domain r s. (ok tt, s ++ r ∷ []);
  delete_record = λ domain id s. (ok tt, s);
}

abbrev www : Record
www = plain (codes "A") (codes "www.a.example") (codes "10.0.0.1") (ℤ.pos 60)

abbrev mail : Record
mail = plain (codes "A") (codes "mail.a.example") (codes "10.0.0.3") (ℤ.pos 60)

abbrev zone : Zone
zone = record {
  domain = codes "a.example";
  records = www ∷ mail ∷ [];
  source = codes "bind";
  nameservers = [];
  warnings = [];
}

abbrev info : ZoneInfo
info = record { zone_id = codes "z1"; nameservers = codes "ns1.b.example" ∷ []; created = true }

-- The first record is seen in round 1, the second never.
abbrev check : List Bytes → ℕ → Record → Checked
check hosts k rec = record {
  matched = if k == 1 then str_eq rec.name (codes "www.a.example") else false;
  got_any = if k == 1 then str_eq rec.name (codes "www.a.example") else false;
  detail = silent;
}

abbrev options : MigrateOptions (List Record)
options = record {
  domain = codes "a.example";
  target_slug = codes "cloudflare";
  target_provider = some memory;
  preloaded = some zone;
  source_bind_file = [];
  import_file = λ path. ok zone;
  scrape = ok zone;
  adapters = (codes "cloudflare", λ domain s. (ok info, s)) ∷ [];
  source_slug = codes "godaddy";
  skip_detect = true;
  detect = none;
  is_apply = true;
  text_of = λ e. [];
  wait = λ k. none;
  check = check;
  rounds = 2;
  done = λ k. false;
}

migrate_errors : (migrate options []).1 ≡ []
unfolding migrate dns_entree.Text.contains_any dns_entree.Text.contains dns_entree.Text.has_suffix
    str_eq
migrate_errors = refl

migrate_results :
    (migrate options []).0.results
    ≡ record { rec = www; status = matched; note = found silent }
      ∷ record { rec = mail; status = not_yet_propagated; note = timed_out }
      ∷ []
unfolding migrate dns_entree.Text.contains_any dns_entree.Text.contains dns_entree.Text.has_suffix
    str_eq
migrate_results = refl

migrate-IsMigrated_example : IsMigrated options ((migrate options []).0, (migrate options []).2)
migrate-IsMigrated_example = migrate-IsMigrated options [] refl migrate_errors

abbrev preview : MigrateOptions (List Record)
preview = record options { is_apply = false }

migrate-IsPreview_example :
    ((migrate preview []).0.results ≡ []) × IsOnlyEnsured preview [] (migrate preview []).2
migrate-IsPreview_example = migrate-IsPreview preview [] refl

rounds_run : (verify_rounds (check []) (λ k. false) 2 0 (www ∷ mail ∷ [])).1 ≡ false
unfolding verify_rounds str_eq
rounds_run = refl

verify_rounds-fate_example :
    tally (λ r. true) (verify_rounds (check []) (λ k. false) 2 0 (www ∷ mail ∷ [])).0
    ≡ tally (λ r. true) (map (fate (check []) (λ k. false) 2 0) (www ∷ mail ∷ []))
verify_rounds-fate_example =
    verify_rounds-fate (check []) (λ k. false) (λ r. true) 2 0 (www ∷ mail ∷ []) rounds_run

sanitize_run :
    sanitize_err (codes "GET failed: authorization: Bearer abc") ≡ codes "GET failed: [redacted]"
unfolding sanitize_err dns_entree.Text.index dns_entree.Text.to_lower
sanitize_run = refl

-- A needle further down the list that stands in front of the first one is left in.
leak_run : sanitize_err (codes "Bearer abc Authorization: x") ≡ codes "Bearer abc [redacted]"
unfolding sanitize_err dns_entree.Text.index dns_entree.Text.to_lower
leak_run = refl
