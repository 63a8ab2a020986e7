-- ===== src/Migrate/Scrape.antt =====
-- scrape.go, zone.go and bind.go: a zone out of a transfer, out of a walk over names, or
-- out of a zone file that was parsed.
pub mod Labels
pub mod Walk
pub mod Within
pub mod Grows
pub mod Ends
pub mod Source
pub mod Safe
pub mod Total
mod Tests
use dns_entree.Base.{
  ℕ, suc, ◌+◌, Bool, true, false, ◌&&◌, ◌||◌, not, List, [], ◌∷◌, ◌++◌, Option, none, some,
  if◌then◌else◌, ltb, ◌==◌, any,
}
use dns_entree.Text.{Bytes, codes, str_eq, trim_suffix, is_some}
use dns_entree.Record.{Record}
use dns_entree.Record.Errors.{Error, other, Result, ok, err}
use dns_entree.Dns.{Rr, Answers, type_soa}
use dns_entree.Template.Names.{is_empty, dot}
use dns_entree.Migrate.Convert.{Converted, kept, skipped, in_zone, rr_to_record}

pub record Zone : Type 0 where
  pub domain : Bytes
  pub records : List Record
  pub source : Bytes
  pub nameservers : List Bytes
  pub warnings : List Bytes

abbrev pub empty_zone : Bytes → Bytes → Zone
empty_zone domain source = record {
  domain = domain;
  records = [];
  source = source;
  nameservers = [];
  warnings = [];
}

unfoldable pub warn : Bytes → Zone → Zone
unfolding is_empty
warn text z = if is_empty text then z else record z { warnings = z.warnings ++ text ∷ [] }

-- A converted record is kept, or its warning is.
unfoldable pub add_converted : Converted → Zone → Zone
unfolding warn
add_converted (kept rec) z = record z { records = z.records ++ rec ∷ [] }
add_converted (skipped text) z = warn text z

-- A part of a zone transfer: its records, and the error that ended it.
pub record Envelope : Type 0 where
  pub rrs : List Rr
  pub failure : Option Error

unfoldable pub all_rrs : List Envelope → List Rr
all_rrs [] = []
all_rrs (e ∷ es) = e.rrs ++ all_rrs es

unfoldable pub last_failure : List Envelope → Option Error
last_failure [] = none
last_failure (e ∷ es) = let rest = last_failure es in if is_some rest then rest else e.failure

unfoldable pub no_rrs : List Rr → Bool
no_rrs [] = true
no_rrs (rr ∷ rrs) = false

module _ (quote : Bytes → Bytes) (type_name : ℕ → Bytes) where
  -- The records of a transfer, with the number of SOA records: a record outside the zone is dropped.
  unfoldable pub axfr_records : Bytes → List Rr → ℕ → Zone → ℕ × Zone
  unfolding in_zone add_converted rr_to_record
  axfr_records domain [] n z = (n, z)
  axfr_records domain (rr ∷ rrs) n z =
      if rr.rrtype == type_soa
      then axfr_records domain rrs (suc n) z
      else if not (in_zone rr.name domain)
      then axfr_records domain rrs n (record z {
        warnings =
            z.warnings
            ++ (codes "dropped out-of-zone AXFR record "
                ++ (type_name rr.rrtype ++ (codes " " ++ trim_suffix rr.name dot)))
              ∷ [];
      })
      else axfr_records domain rrs n (add_converted (rr_to_record quote type_name (some rr)) z)

  -- A complete transfer has an SOA at its start and its end.
  unfoldable pub complete : ℕ × Zone → Result Zone
  complete (n, z) = if ltb n 2 then err (other (codes "axfr incomplete")) else ok z

  unfoldable pub received : Bytes → List Rr → Option Error → Result Zone
  unfolding no_rrs complete axfr_records
  received domain rrs failure =
      if no_rrs rrs
      then err (elim failure [ none ↦ other (codes "axfr returned no records") | some e ↦ e ])
      else complete (axfr_records domain rrs 0 (empty_zone domain (codes "axfr")))

  unfoldable pub axfr_transfer : Bytes → Result (List Envelope) → Result Zone
  unfolding received all_rrs last_failure
  axfr_transfer domain (err e) = err e
  axfr_transfer domain (ok envelopes) = received domain (all_rrs envelopes) (last_failure envelopes)

  unfoldable pub import_record : Zone → Converted → Zone
  unfolding in_zone warn add_converted
  import_record z (skipped text) = warn text z
  import_record z (kept rec) =
      if in_zone rec.name z.domain then add_converted (kept rec) z else record z {
        warnings =
            z.warnings
            ++ (codes "dropped out-of-zone record " ++ (rec.typ ++ (codes " " ++ rec.name))) ∷ [];
      }

  unfoldable pub import_records : List Rr → Zone → Zone
  unfolding import_record rr_to_record
  import_records [] z = z
  import_records (rr ∷ rrs) z =
      import_records rrs (import_record z (rr_to_record quote type_name (some rr)))

  -- What the parser of zone files gives: the records up to the end or to an error.
  unfoldable pub import_bind : Bytes → List Rr × Option Error → Result Zone
  unfolding import_records
  import_bind domain (rrs, some e) = err e
  import_bind domain (rrs, none) =
      ok (import_records rrs (empty_zone (trim_suffix domain dot) (codes "bind")))
