-- ===== src/Migrate/Scrape/Source.antt =====
-- `ScrapeZone`: the name servers, a transfer from one of them, or else the walk.
use dns_entree.Base.{ℕ, Bool, List, [], ◌∷◌, Option, none, some, if◌then◌else◌}
use dns_entree.Text.{Bytes, codes, trim_suffix}
use dns_entree.Record.Errors.{Error, other, Result, ok, err}
use dns_entree.Dns.{Rr}
use dns_entree.Template.Names.{dot}
use dns_entree.Migrate.Scrape.{Zone, Envelope, axfr_transfer}
use dns_entree.Migrate.Scrape.Labels.{labels}
use dns_entree.Migrate.Scrape.Walk.{query_authoritative, iterated_scrape}

pub record ScrapeOptions : Type 0 where
  pub nameservers : List Bytes
  pub extra_labels : List Bytes
  pub only_labels : List Bytes
  pub skip_axfr : Bool

-- What the network answers: the name servers of a domain, the address of a host, a transfer, a reply
-- with its code, and whether the context is done before a query.
pub record Servers : Type 0 where
  pub lookup_ns : Bytes → Result (List Bytes)
  pub address_of : Bytes → Result Bytes
  pub transfer : (domain addr : Bytes) → Result (List Envelope)
  pub exchange : (addr name : Bytes) → (qtype : ℕ) → Result (Option (List Rr × ℕ))
  pub done : (name : Bytes) → (qtype : ℕ) → Bool

-- The names of types and codes, `%q`, and the text of an error.
pub record Printer : Type 0 where
  pub quote : Bytes → Bytes
  pub type_name : ℕ → Bytes
  pub code_name : ℕ → Bytes
  pub text_of : Error → Bytes

-- A host without an address is left out.
unfoldable pub addresses : Servers → List Bytes → List Bytes
addresses servers [] = []
addresses servers (h ∷ hs) = elim (servers.address_of (trim_suffix h dot)) [
  | err e ↦ addresses servers hs
  | ok addr ↦ addr ∷ addresses servers hs
]

unfoldable pub usable : Result (List Bytes) → Servers → Result (List Bytes)
unfolding addresses
usable (err e) servers = err e
usable (ok hosts) servers = elim (addresses servers hosts) [
  | [] ↦ err (other (codes "no usable nameservers"))
  | a ∷ rest ↦ ok (a ∷ rest)
]

unfoldable pub servers_to_ask : Servers → Bytes → List Bytes → Result (List Bytes)
unfolding usable
servers_to_ask servers domain [] = usable (servers.lookup_ns domain) servers
servers_to_ask servers domain (n ∷ ns) = ok (n ∷ ns)

abbrev pub first_zone : Result Zone → Option Zone → Option Zone
first_zone (err e) rest = rest
first_zone (ok z) rest = some z

module _ (print : Printer) (servers : Servers) (domain : Bytes) where
  -- The first transfer that is complete.
  unfoldable pub try_transfers : List Bytes → Option Zone
  unfolding axfr_transfer
  try_transfers [] = none
  try_transfers (n ∷ ns) =
      first_zone (axfr_transfer print.quote print.type_name domain (servers.transfer domain n))
        (try_transfers ns)

  abbrev pub with_servers : List Bytes → Zone → Zone
  with_servers ns z = record z { nameservers = ns }

  unfoldable pub after_walk : List Bytes → Option (Result Zone) → Option (Result Zone)
  after_walk ns none = none
  after_walk ns (some (err e)) = some (err e)
  after_walk ns (some (ok z)) = some (ok (with_servers ns z))

  unfoldable pub walk_zone : ℕ → ScrapeOptions → List Bytes → Option (Result Zone)
  unfolding labels iterated_scrape query_authoritative after_walk
  walk_zone fuel opts ns = after_walk ns (
      iterated_scrape print.quote print.type_name print.code_name print.text_of domain
        (λ name qtype. query_authoritative (λ n. servers.exchange n name qtype) ns none)
        servers.done fuel (labels opts.only_labels opts.extra_labels))

  unfoldable pub after_transfers :
      ℕ → ScrapeOptions → List Bytes → Option Zone → Option (Result Zone)
  unfolding walk_zone
  after_transfers fuel opts ns (some z) = some (ok (with_servers ns z))
  after_transfers fuel opts ns none = walk_zone fuel opts ns

  unfoldable pub scrape_from : ℕ → ScrapeOptions → Result (List Bytes) → Option (Result Zone)
  unfolding try_transfers after_transfers
  scrape_from fuel opts (err e) = some (err e)
  scrape_from fuel opts (ok ns) =
      after_transfers fuel opts ns (if opts.skip_axfr then none else try_transfers ns)

unfoldable pub scrape_zone : Printer → Servers → ℕ → Bytes → ScrapeOptions → Option (Result Zone)
unfolding servers_to_ask scrape_from
scrape_zone print servers fuel domain opts =
    let d = trim_suffix domain dot in
    scrape_from print servers d fuel opts (servers_to_ask servers d opts.nameservers)
