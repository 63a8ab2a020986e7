-- ===== src/Migrate/Run.antt =====
-- migrate.go, report.go, adapter.go and ratelimit.go: the preview of a migration, the writes at the
-- target provider, and the rounds of verification until the deadline.
pub mod Main
pub mod Writes
pub mod Laws
pub mod Dry
pub mod Rounds
mod Tests
use dns_entree.Base.{
  ℕ, zero, suc, ◌+◌, Bool, true, false, ◌&&◌, ◌||◌, not, List, [], ◌∷◌, ◌++◌, Option, none, some,
  map, take, if◌then◌else◌,
}
use dns_entree.Text.{
  Bytes, codes, str_eq, to_lower, contains, contains_any, has_prefix, has_suffix, index,
}
use dns_entree.Record.{Record, Provider}
use dns_entree.Record.Errors.{Error, other, Result, ok, err}
use dns_entree.Template.Names.{is_empty, dot}
use dns_entree.Migrate.Scrape.{Zone}
use dns_entree.Migrate.Target.{Detail, silent, Target, Checked, verify_record_against_ns}

pub data Status : Type 0 where
  matched mismatch not_yet_propagated apply_failed : Status

-- What goes with a status: what the check found, the sanitized text of a refusal, or that there was
-- no answer before the deadline or the end of the context.
pub data Note : Type 0 where
  found : Detail → Note
  refused : Bytes → Note
  timed_out cancelled : Note

pub record RecordResult : Type 0 where
  pub rec : Record
  pub status : Status
  pub note : Note

pub record ZoneInfo : Type 0 where
  pub zone_id : Bytes
  pub nameservers : List Bytes
  pub created : Bool

-- What a report tells as an error.
pub data Failure : Type 0 where
  invalid : Bytes → Failure
  scrape_failed no_adapter ensure_failed wait_failed : Error → Failure
  apply_failure : Record → Error → Failure
  mismatched : RecordResult → Failure
  context_done : Failure

pub record MigrationReport : Type 0 where
  pub domain : Bytes
  pub source : Bytes
  pub source_nameservers : List Bytes
  pub source_provider : Bytes
  pub target_zone : Option ZoneInfo
  pub target_zone_status : Bytes
  pub preview : List Record
  pub results : List RecordResult
  pub warnings : List Bytes
  pub errors : List Failure

-- `validateDomain`: the error, where there is one.
unfoldable pub validate_domain : Bytes → Option Bytes
unfolding is_empty
validate_domain domain =
    if is_empty domain
    then some (codes "domain required")
    else if contains_any domain (codes " \t\r\n/?#")
    then some (codes "domain contains invalid characters")
    else if contains domain (codes "..") || (has_prefix domain dot || has_suffix domain dot)
    then some (codes "malformed domain")
    else if not (contains domain dot)
    then some (codes "no TLD")
    else none

unfoldable pub validate_endpoint : Bytes → Bool
unfolding is_empty
validate_endpoint endpoint =
    is_empty endpoint
    || (has_prefix endpoint (codes "http://") || has_prefix endpoint (codes "https://"))

abbrev pub needles : List Bytes
needles =
    codes "Authorization:"
    ∷ codes "Bearer "
    ∷ codes "api_key"
    ∷ codes "apikey"
    ∷ codes "X-Api-Key"
    ∷ []

-- The text is cut at the first needle of the list that it holds.
unfoldable pub cut_at : List Bytes → Bytes → Bytes
cut_at [] s = s
cut_at (n ∷ ns) s = elim (index (to_lower s) (to_lower n)) [
  | none ↦ cut_at ns s
  | some i ↦ take i s ++ codes "[redacted]"
]

unfoldable pub sanitize_err : Bytes → Bytes
unfolding cut_at
sanitize_err s = cut_at needles s

-- `GetAdapter` on the registered adapters; a later registration stands in front.
abbrev pub Adapter : Type 0 → Type 0
Adapter S = Bytes → S → Result ZoneInfo × S

module _ {S : Type 0} where
  unfoldable pub get_adapter : List (Bytes × Adapter S) → Bytes → Option (Adapter S)
  get_adapter [] slug = none
  get_adapter ((k, a) ∷ more) slug = if str_eq k slug then some a else get_adapter more slug

-- What the check of a record decides: nothing where no server answered.
unfoldable pub verdict : Record → Checked → Option RecordResult
verdict rec c =
    if c.matched
    then some (record { rec = rec; status = matched; note = found c.detail })
    else if not c.got_any
    then none
    else some (record { rec = rec; status = mismatch; note = found c.detail })

abbrev pub keep_result : Option RecordResult → List RecordResult → List RecordResult
keep_result none rs = rs
keep_result (some r) rs = r ∷ rs

abbrev pub keep_pending : Record → Option RecordResult → List Record → List Record
keep_pending rec none rs = rec ∷ rs
keep_pending rec (some r) rs = rs

abbrev pub unanswered : Note → Record → RecordResult
unanswered why rec = record { rec = rec; status = not_yet_propagated; note = why }

-- `check` is `verifyRecordAgainstNS` in a round, and `done` says whether the context is done while
-- waiting for the next one.
module _ (check : ℕ → Record → Checked) (done : ℕ → Bool) where
  unfoldable pub settled : ℕ → List Record → List RecordResult
  unfolding verdict
  settled k [] = []
  settled k (r ∷ rs) = keep_result (verdict r (check k r)) (settled k rs)

  unfoldable pub still : ℕ → List Record → List Record
  unfolding verdict
  still k [] = []
  still k (r ∷ rs) = keep_pending r (verdict r (check k r)) (still k rs)

  -- After a round, with the records that nothing was decided for, and what the next rounds give.
  unfoldable pub after_round :
      ℕ → List RecordResult → List Record → List RecordResult × Bool → List RecordResult × Bool
  after_round k out [] rest = (out, false)
  after_round k out (r ∷ rs) rest =
      if done k then (out ++ map (unanswered cancelled) (r ∷ rs), true) else (out ++ rest.0, rest.1)

  -- The results, and whether the context was done. The first number is how many times the loop waits
  -- before the deadline has passed, the second is the round.
  unfoldable pub verify_rounds : ℕ → ℕ → List Record → List RecordResult × Bool
  unfolding settled still after_round
  verify_rounds zero k pending =
      (settled k pending ++ map (unanswered timed_out) (still k pending), false)
  verify_rounds (suc left) k pending =
      after_round k (settled k pending) (still k pending)
        (verify_rounds left (suc k) (still k pending))

-- What the writes come to: the records that were written, the failed results and the errors, and
-- whether the limiter ended them.
pub record Written (S : Type 0) : Type 0 where
  pub applied : List Record
  pub failures : List RecordResult
  pub errors : List Failure
  pub halted : Bool
  pub state : S

module _ {S : Type 0} (p : Provider S) (text_of : Error → Bytes) (domain : Bytes) where
  unfoldable pub after_write : Record → Result (Unit {0}) × S → (S → Written S) → Written S
  unfolding sanitize_err
  after_write rec (ok u, s) next = let rest = next s in record rest { applied = rec ∷ rest.applied }
  after_write rec (err e, s) next =
      let rest = next s in
      record rest {
        failures =
            record { rec = rec; status = apply_failed; note = refused (sanitize_err (text_of e)) }
            ∷ rest.failures;
        errors = apply_failure rec e ∷ rest.errors;
      }

  unfoldable pub after_wait : Option Error → S → (S → Written S) → Written S
  after_wait (some e) s next = record {
    applied = [];
    failures = [];
    errors = wait_failed e ∷ [];
    halted = true;
    state = s;
  }
  after_wait none s next = next s

  -- `wait` is the write limiter at each record; its error ends the migration.
  unfoldable pub write_all : (ℕ → Option Error) → ℕ → List Record → S → Written S
  unfolding after_write after_wait
  write_all wait k [] s = record {
    applied = [];
    failures = [];
    errors = [];
    halted = false;
    state = s;
  }
  write_all wait k (rec ∷ recs) s =
      after_wait (wait k) s
        (λ t. after_write rec (p.set_record domain rec t) (write_all wait (suc k) recs))

unfoldable pub add_mismatch : Status → RecordResult → List Failure → List Failure
add_mismatch mismatch r fs = mismatched r ∷ fs
add_mismatch _ r fs = fs

unfoldable pub mismatches : List RecordResult → List Failure
unfolding add_mismatch
mismatches [] = []
mismatches (r ∷ rs) = add_mismatch r.status r (mismatches rs)
