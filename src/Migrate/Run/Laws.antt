-- ===== src/Migrate/Run/Laws.antt =====
-- What a migration without an error has done, and what one without `Apply` leaves alone.
use dns_entree.Base.{
  ◌≡◌, ◌≢◌, refl, sym, ap, subst, ◌∙◌, Bool, true, false, List, [], ◌∷◌, ◌++◌, map, Option, none,
  some, if◌then◌else◌, All,
}
use dns_entree.Text.{Bytes, codes}
use dns_entree.Record.{Record, Provider}
use dns_entree.Record.Errors.{Result, ok, err}
use dns_entree.Template.Names.{is_empty}
use dns_entree.Push.Apply.{Applied}
use dns_entree.Migrate.Scrape.{Zone}
use dns_entree.Migrate.Run.{
  Status, matched, mismatch, not_yet_propagated, apply_failed, RecordResult, ZoneInfo, Failure,
  context_done, MigrationReport, validate_domain, Adapter, get_adapter, verify_rounds, Written,
  write_all, add_mismatch, mismatches,
}
use dns_entree.Migrate.Run.Main.{
  MigrateOptions, source_zone, after_verify, after_writes, apply_zone, after_ensure, with_adapter,
  with_zone, reported, refused, with_provider, with_domain, migrate,
}
use dns_entree.Migrate.Run.Rounds.{tally, fate, verify_rounds-fate}
use dns_entree.Migrate.Run.Writes.{IsClean, write_all-IsClean}

nil_parts {ℓ} : {A : Type ℓ} (xs ys : List A) → xs ++ ys ≡ [] → (xs ≡ []) × (ys ≡ [])
nil_parts [] ys h = (refl, h)
nil_parts (x ∷ xs) ys h = cc

not_nil {ℓ} : {A : Type ℓ} (x : A) (xs : List A) → x ∷ xs ≡ [] → ⊥
not_nil x xs h = cc

-- The branch that is taken.
then_case {ℓ κ} :
    {A : Type ℓ} (P : A → Type κ) (b : Bool) (x y : A) → b ≡ true → P x → P (if b then x else y)
then_case P true x y h p = p
then_case P false x y h p = cc

true_ne_false : true ≡ false → ⊥
true_ne_false h = cc

abbrev pub IsFine : RecordResult → Type 0
IsFine r = r.status ≢ mismatch

add_mismatch-none :
    (t : Status) (r : RecordResult) (fs : List Failure)
    → add_mismatch t r fs ≡ []
    → (t ≢ mismatch) × (fs ≡ [])
unfolding add_mismatch
add_mismatch-none matched r fs h = ((λ e. cc), h)
add_mismatch-none mismatch r fs h = cc
add_mismatch-none not_yet_propagated r fs h = ((λ e. cc), h)
add_mismatch-none apply_failed r fs h = ((λ e. cc), h)

no_mismatches : (rs : List RecordResult) → mismatches rs ≡ [] → All IsFine rs
unfolding mismatches
no_mismatches [] h = tt
no_mismatches (r ∷ rs) h =
    let (fine, later) = add_mismatch-none r.status r (mismatches rs) h in
    (fine, no_mismatches rs later)

-- The outcome of a migration that returned no error: from the state after the zone was ensured, the
-- target provider accepted every record of the zone, in order; the results are the fates of the
-- records, and none of them is a mismatch.
pub record IsMigrated {S : Type 0} (o : MigrateOptions S) (r : MigrationReport × S) : Type 0 where
  pub provider : Provider S
  pub target : o.target_provider ≡ some provider
  pub start : S
  pub written : Applied provider o.domain start r.0.preview r.1
  pub zone : ZoneInfo
  pub known : r.0.target_zone ≡ some zone
  pub fates :
      (q : RecordResult → Bool)
      → tally q r.0.results
        ≡ tally q (map (fate (o.check zone.nameservers) o.done o.rounds 0) r.0.preview)
  pub fine : All IsFine r.0.results

module _ {S : Type 0} (o : MigrateOptions S) where
  after_verify-IsMigrated :
      (p : Provider S) (s : S) (zi : ZoneInfo) (recs : List Record) (w : Written S)
      (report : MigrationReport) (v : List RecordResult × Bool)
      → report.errors ≡ []
      → report.preview ≡ recs
      → report.target_zone ≡ some zi
      → verify_rounds (o.check zi.nameservers) o.done o.rounds 0 w.applied ≡ v
      → IsClean p o.text_of o.domain s recs w
      → o.target_provider ≡ some p
      → (after_verify o w v report).0.errors ≡ []
      → IsMigrated o (after_verify o w v report)
  unfolding after_verify
  after_verify-IsMigrated p s zi recs w report (rs, true) h hp hz hv c tp e = absurd (
      not_nil _ _
        (nil_parts w.errors _ (nil_parts report.errors (w.errors ++ context_done ∷ []) e).1).1)
  after_verify-IsMigrated p s zi recs w report (rs, false) h hp hz hv c tp e =
      let all = fate (o.check zi.nameservers) o.done o.rounds 0 in
      let later = (nil_parts report.errors (w.errors ++ mismatches (w.failures ++ rs)) e).1 in
      record {
        provider = p;
        target = tp;
        start = s;
        written = subst (λ xs. Applied p o.domain s xs w.state) (sym hp) c.written;
        zone = zi;
        known = hz;
        fates = λ q.
            ap (λ fs. tally q (fs ++ rs)) c.failures
            ∙ ap (λ (x : List RecordResult × Bool). tally q x.0) (sym hv)
            ∙ verify_rounds-fate (o.check zi.nameservers) o.done q o.rounds 0 w.applied
                (ap (λ (x : List RecordResult × Bool). x.1) hv)
            ∙ ap (λ recs'. tally q (map all recs')) (c.applied ∙ sym hp);
        fine = no_mismatches (w.failures ++ rs) (nil_parts w.errors _ later).1;
      }

  -- The errors of the writes are among those of the report.
  after_verify-errors :
      (w : Written S) (report : MigrationReport) (v : List RecordResult × Bool)
      → (after_verify o w v report).0.errors ≡ []
      → w.errors ≡ []
  unfolding after_verify
  after_verify-errors w report (rs, true) e =
      (nil_parts w.errors _ (nil_parts report.errors (w.errors ++ context_done ∷ []) e).1).0
  after_verify-errors w report (rs, false) e =
      (nil_parts w.errors _
        (nil_parts report.errors (w.errors ++ mismatches (w.failures ++ rs)) e).1).0

  written_case :
      (b : Bool) (x y : MigrationReport × S)
      → (x.0.errors ≡ [] → b ≡ false)
      → (y.0.errors ≡ [] → IsMigrated o y)
      → (if◌then◌else◌ {A = MigrationReport × S} b x y).0.errors ≡ []
      → IsMigrated o (if◌then◌else◌ {A = MigrationReport × S} b x y)
  written_case true x y f g e = absurd (true_ne_false (f e))
  written_case false x y f g e = g e

  apply_zone-IsMigrated :
      (p : Provider S) (zone : Zone) (zi : ZoneInfo) (report : MigrationReport) (s : S)
      → o.target_provider ≡ some p
      → report.errors ≡ []
      → report.preview ≡ zone.records
      → report.target_zone ≡ some zi
      → o.is_apply ≡ true
      → (apply_zone o p zone zi report s).0.errors ≡ []
      → IsMigrated o (apply_zone o p zone zi report s)
  unfolding apply_zone after_writes
  apply_zone-IsMigrated p zone zi report s tp h hp hz act =
      let w = write_all p o.text_of o.domain o.wait 0 zone.records s in
      let v = verify_rounds (o.check zi.nameservers) o.done o.rounds 0 w.applied in
      let clean = write_all-IsClean p o.text_of o.domain o.wait 0 zone.records s in
      then_case (λ (r : MigrationReport × S). r.0.errors ≡ [] → IsMigrated o r) o.is_apply _
        (report, s) act
        (written_case w.halted
          (record report { results = w.failures; errors = report.errors ++ w.errors }, w.state)
          (after_verify o w v report) (λ e. (clean (nil_parts report.errors w.errors e).1).halted)
          (λ e.
            after_verify-IsMigrated p s zi zone.records w report v h hp hz refl
              (clean (after_verify-errors w report v e)) tp e))

  after_ensure-IsMigrated :
      (p : Provider S) (zone : Zone) (w : Result ZoneInfo × S) (report : MigrationReport)
      → o.target_provider ≡ some p
      → report.errors ≡ []
      → report.preview ≡ zone.records
      → o.is_apply ≡ true
      → (after_ensure o p zone w report).0.errors ≡ []
      → IsMigrated o (after_ensure o p zone w report)
  unfolding after_ensure
  after_ensure-IsMigrated p zone (err x, s) report tp h hp act e =
      absurd (not_nil _ _ (nil_parts report.errors _ e).1)
  after_ensure-IsMigrated p zone (ok zi, s) report tp h hp act e =
      apply_zone-IsMigrated p zone zi _ s tp h hp refl act e

  with_adapter-IsMigrated :
      (p : Provider S) (zone : Zone) (a : Option (Adapter S)) (report : MigrationReport) (s : S)
      → o.target_provider ≡ some p
      → report.errors ≡ []
      → report.preview ≡ zone.records
      → o.is_apply ≡ true
      → (with_adapter o p zone a report s).0.errors ≡ []
      → IsMigrated o (with_adapter o p zone a report s)
  unfolding with_adapter
  with_adapter-IsMigrated p zone none report s tp h hp act e =
      absurd (not_nil _ _ (nil_parts report.errors _ e).1)
  with_adapter-IsMigrated p zone (some ensure) report s tp h hp act e =
      after_ensure-IsMigrated p zone (ensure o.domain s) report tp h hp act e

  with_zone-IsMigrated :
      (p : Provider S) (z : Result Zone) (s : S)
      → o.target_provider ≡ some p
      → o.is_apply ≡ true
      → (with_zone o p z s).0.errors ≡ []
      → IsMigrated o (with_zone o p z s)
  unfolding with_zone
  with_zone-IsMigrated p (err x) s tp act e = absurd (not_nil _ _ e)
  with_zone-IsMigrated p (ok zone) s tp act e =
      with_adapter-IsMigrated p zone (get_adapter o.adapters o.target_slug) _ s tp refl refl act e

  with_provider-IsMigrated :
      (p : Option (Provider S)) (s : S)
      → o.target_provider ≡ p
      → o.is_apply ≡ true
      → (with_provider o p s).1 ≡ []
      → IsMigrated o ((with_provider o p s).0, (with_provider o p s).2)
  unfolding with_provider refused reported
  with_provider-IsMigrated none s tp act e = absurd (not_nil _ _ e)
  with_provider-IsMigrated (some p) s tp act e = with_zone-IsMigrated p (source_zone o) s tp act e

  provider_case :
      (b : Bool) (s : S)
      → o.is_apply ≡ true
      → (if◌then◌else◌ {A = MigrationReport × List Failure × S} b
          (refused o (codes "TargetSlug required") s)
          (with_provider o o.target_provider s)).1
        ≡ []
      → IsMigrated o (
        (if◌then◌else◌ {A = MigrationReport × List Failure × S} b
            (refused o (codes "TargetSlug required") s)
            (with_provider o o.target_provider s)).0,
        (if◌then◌else◌ {A = MigrationReport × List Failure × S} b
            (refused o (codes "TargetSlug required") s)
            (with_provider o o.target_provider s)).2,
      )
  unfolding refused
  provider_case true s act e = absurd (not_nil _ _ e)
  provider_case false s act e = with_provider-IsMigrated o.target_provider s refl act e

  with_domain-IsMigrated :
      (d : Option Bytes) (s : S)
      → o.is_apply ≡ true
      → (with_domain o d s).1 ≡ []
      → IsMigrated o ((with_domain o d s).0, (with_domain o d s).2)
  unfolding with_domain refused
  with_domain-IsMigrated (some what) s act e = absurd (not_nil _ _ e)
  with_domain-IsMigrated none s act e = provider_case (is_empty o.target_slug) s act e

  -- A migration with `Apply` that returns no error has written every record of the previewed zone at
  -- the target provider, in order, and its results are, each once, what becomes of those records by themselves in the rounds of
  -- verification at the assigned name servers: matched, or timed out, and none is a mismatch.
  pub migrate-IsMigrated :
      (s : S)
      → o.is_apply ≡ true
      → (migrate o s).1 ≡ []
      → IsMigrated o ((migrate o s).0, (migrate o s).2)
  unfolding migrate
  migrate-IsMigrated s act e = with_domain-IsMigrated (validate_domain o.domain) s act e
