-- ===== src/Migrate/Run/Main.antt =====
-- `Migrate`: the preview, and with `Apply` the writes and the verification.
use dns_entree.Base.{
  ℕ, Bool, true, false, ◌&&◌, not, List, [], ◌∷◌, ◌++◌, Option, none, some, if◌then◌else◌,
}
use dns_entree.Text.{Bytes, codes}
use dns_entree.Record.{Record, Provider}
use dns_entree.Record.Errors.{Error, other, Result, ok, err}
use dns_entree.Template.Names.{is_empty}
use dns_entree.Migrate.Scrape.{Zone}
use dns_entree.Migrate.Target.{Checked}
use dns_entree.Migrate.Run.{
  RecordResult, ZoneInfo, Failure, invalid, scrape_failed, no_adapter, ensure_failed, context_done,
  MigrationReport, validate_domain, Adapter, get_adapter, verify_rounds, Written, write_all,
  mismatches,
}

-- The options and the world: `import_file` and `scrape` give the zone, `detect` the provider of the
-- domain, `check` the outcome of a record in a round, `rounds` the number of waits before the
-- deadline, `wait` the limiter, and `done` whether the context is done in a wait.
pub record MigrateOptions (S : Type 0) : Type 0 where
  pub domain : Bytes
  pub target_slug : Bytes
  pub target_provider : Option (Provider S)
  pub preloaded : Option Zone
  pub source_bind_file : Bytes
  pub import_file : Bytes → Result Zone
  pub scrape : Result Zone
  pub adapters : List (Bytes × Adapter S)
  pub source_slug : Bytes
  pub skip_detect : Bool
  pub detect : Option Bytes
  pub is_apply : Bool
  pub text_of : Error → Bytes
  pub wait : ℕ → Option Error
  pub check : List Bytes → ℕ → Record → Checked
  pub rounds : ℕ
  pub done : ℕ → Bool

abbrev pub blank : Bytes → MigrationReport
blank domain = record {
  domain = domain;
  source = [];
  source_nameservers = [];
  source_provider = [];
  target_zone = none;
  target_zone_status = [];
  preview = [];
  results = [];
  warnings = [];
  errors = [];
}

abbrev pub failed_with : Failure → MigrationReport → MigrationReport
failed_with e report = record report { errors = report.errors ++ e ∷ [] }

module _ {S : Type 0} (o : MigrateOptions S) where
  unfoldable pub source_zone : Result Zone
  unfolding is_empty
  source_zone = elim o.preloaded [
    | some z ↦ ok z
    | none ↦ if is_empty o.source_bind_file then o.scrape else o.import_file o.source_bind_file
  ]

  unfoldable pub source_provider : Bytes
  unfolding is_empty
  source_provider =
      if is_empty o.source_slug && not o.skip_detect
      then elim o.detect [ none ↦ [] | some slug ↦ slug ]
      else o.source_slug

  -- The end of the verification: the results, and an error for each mismatch.
  unfoldable pub after_verify :
      Written S → List RecordResult × Bool → MigrationReport → MigrationReport × S
  unfolding mismatches
  after_verify w (results, true) report = (
    record report {
      results = w.failures ++ results;
      errors = report.errors ++ (w.errors ++ context_done ∷ []);
    },
    w.state,
  )
  after_verify w (results, false) report = (
    record report {
      results = w.failures ++ results;
      errors = report.errors ++ (w.errors ++ mismatches (w.failures ++ results));
    },
    w.state,
  )

  unfoldable pub after_writes : ZoneInfo → Written S → MigrationReport → MigrationReport × S
  unfolding after_verify verify_rounds
  after_writes zi w report =
      if w.halted
      then (record report { results = w.failures; errors = report.errors ++ w.errors }, w.state)
      else after_verify w (verify_rounds (o.check zi.nameservers) o.done o.rounds 0 w.applied)
          report

  -- Without `Apply` the migration ends here.
  unfoldable pub apply_zone :
      Provider S → Zone → ZoneInfo → MigrationReport → S → MigrationReport × S
  unfolding after_writes write_all
  apply_zone p zone zi report s =
      if o.is_apply
      then after_writes zi (write_all p o.text_of o.domain o.wait 0 zone.records s) report
      else (report, s)

  unfoldable pub after_ensure :
      Provider S → Zone → Result ZoneInfo × S → MigrationReport → MigrationReport × S
  unfolding source_provider apply_zone
  after_ensure p zone (err e, s) report =
      (failed_with (ensure_failed e) (record report { target_zone_status = codes "error" }), s)
  after_ensure p zone (ok zi, s) report =
      apply_zone p zone zi
        (record report {
          target_zone = some zi;
          target_zone_status = if zi.created then codes "will_create" else codes "exists";
          source_provider = source_provider;
        })
        s

  unfoldable pub with_adapter :
      Provider S → Zone → Option (Adapter S) → MigrationReport → S → MigrationReport × S
  unfolding after_ensure
  with_adapter p zone none report s = (
    failed_with (no_adapter (other (codes "no adapter for provider")))
        (record report { target_zone_status = codes "error" }),
    s,
  )
  with_adapter p zone (some ensure) report s = after_ensure p zone (ensure o.domain s) report

  unfoldable pub with_zone : Provider S → Result Zone → S → MigrationReport × S
  unfolding with_adapter get_adapter
  with_zone p (err e) s = (failed_with (scrape_failed e) (blank o.domain), s)
  with_zone p (ok zone) s =
      with_adapter p zone (get_adapter o.adapters o.target_slug)
        (record (blank o.domain) {
          source = zone.source;
          source_nameservers = zone.nameservers;
          preview = zone.records;
          warnings = zone.warnings;
        })
        s

  -- The report, what is returned as an error (nil where there is none), and the state.
  unfoldable pub reported : MigrationReport × S → MigrationReport × List Failure × S
  reported (report, s) = (report, report.errors, s)

  unfoldable pub refused : Bytes → S → MigrationReport × List Failure × S
  refused what s = (blank o.domain, invalid what ∷ [], s)

  unfoldable pub with_provider : Option (Provider S) → S → MigrationReport × List Failure × S
  unfolding with_zone source_zone reported refused
  with_provider none s = refused (codes "TargetProvider required") s
  with_provider (some p) s = reported (with_zone p source_zone s)

  unfoldable pub with_domain : Option Bytes → S → MigrationReport × List Failure × S
  unfolding is_empty with_provider refused
  with_domain (some what) s = refused what s
  with_domain none s =
      if is_empty o.target_slug
      then refused (codes "TargetSlug required") s
      else with_provider o.target_provider s

  unfoldable pub migrate : S → MigrationReport × List Failure × S
  unfolding validate_domain with_domain
  migrate s = with_domain (validate_domain o.domain) s
