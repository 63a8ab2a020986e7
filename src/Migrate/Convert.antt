-- ===== src/Migrate/Convert.antt =====
-- convert.go of package migrate: resource records as records of the library, and names in a zone.
use dns_entree.Base.{ℕ, ℤ, Bool, ◌||◌, List, [], ◌∷◌, ◌++◌, Option, none, some}
use dns_entree.Text.{Bytes, codes, str_eq, to_lower, has_suffix, trim_suffix, join}
use dns_entree.Record.{Record, plain}
use dns_entree.Dns.{
  Rdata, soa, dnskey, ds, other, a, aaaa, cname, ns, txt, mx, srv, caa, tlsa, sshfp, Rr,
}
use dns_entree.Template.Names.{dot}
use dns_entree.Template.Keys.Decimal.{decimal_ℕ}

-- A record that is kept, or one that is skipped with a warning, empty where there is none.
pub data Converted : Type 0 where
  kept : Record → Converted
  skipped : Bytes → Converted

-- `inZone`: the name is the zone's or ends in it behind a dot, in any case.
unfoldable pub in_zone : Bytes → Bytes → Bool
in_zone name zone =
    let n = to_lower (trim_suffix name dot) in
    let z = to_lower (trim_suffix zone dot) in str_eq n z || has_suffix n (dot ++ z)

abbrev pub words : List Bytes → Bytes
words parts = join parts (codes " ")

-- `quote` is `%q`, and `type_name` the name of a type's code.
module _ (quote : Bytes → Bytes) (type_name : ℕ → Bytes) where
  unfoldable pub convert_body : Rr → Bytes → Rdata → Converted
  convert_body rr name soa = skipped []
  convert_body rr name dnskey =
      skipped (codes "DNSKEY at " ++ (name ++ codes " skipped (target provider manages DNSSEC)"))
  convert_body rr name ds =
      skipped (codes "DS at " ++ (name ++ codes " skipped (target provider manages DNSSEC)"))
  convert_body rr name (a ip) = kept (plain (codes "A") name ip (ℤ.pos rr.ttl))
  convert_body rr name (aaaa ip) = kept (plain (codes "AAAA") name ip (ℤ.pos rr.ttl))
  convert_body rr name (cname host) =
      kept (plain (codes "CNAME") name (trim_suffix host dot) (ℤ.pos rr.ttl))
  convert_body rr name (txt parts) = kept (plain (codes "TXT") name (join parts []) (ℤ.pos rr.ttl))
  convert_body rr name (mx preference host) =
      kept (record (plain (codes "MX") name (trim_suffix host dot) (ℤ.pos rr.ttl)) {
        priority = ℤ.pos preference;
      })
  convert_body rr name (ns host) =
      kept (plain (codes "NS") name (trim_suffix host dot) (ℤ.pos rr.ttl))
  convert_body rr name (srv prio w p host) =
      kept (record (plain (codes "SRV") name (trim_suffix host dot) (ℤ.pos rr.ttl)) {
        priority = ℤ.pos prio;
        weight = ℤ.pos w;
        port = ℤ.pos p;
      })
  convert_body rr name (caa flag tag value) =
      kept
        (plain (codes "CAA") name (words (decimal_ℕ flag ∷ tag ∷ quote value ∷ [])) (ℤ.pos rr.ttl))
  convert_body rr name (tlsa usage selector matching certificate) = kept (
      plain (codes "TLSA") name
        (words (decimal_ℕ usage ∷ decimal_ℕ selector ∷ decimal_ℕ matching ∷ certificate ∷ []))
        (ℤ.pos rr.ttl))
  convert_body rr name (sshfp algorithm kind fingerprint) = kept (
      plain (codes "SSHFP") name (words (decimal_ℕ algorithm ∷ decimal_ℕ kind ∷ fingerprint ∷ []))
        (ℤ.pos rr.ttl))
  convert_body rr name other = skipped (
      codes "unsupported rrtype "
      ++ (type_name rr.rrtype ++ (codes " at " ++ (name ++ codes " skipped"))))

  unfoldable pub rr_to_record : Option Rr → Converted
  unfolding convert_body
  rr_to_record none = skipped []
  rr_to_record (some rr) = convert_body rr (trim_suffix rr.name dot) rr.body
