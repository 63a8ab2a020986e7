-- ===== src/Verify.antt =====
-- verify.go: a record looked up at the name servers of the domain, then at a recursive resolver.
pub mod Search
pub mod Laws
mod Tests
use dns_entree.Base.{
  ℕ, zero, suc, Bool, true, false, List, [], ◌∷◌, ◌++◌, Option, none, some, if◌then◌else◌, ◌==◌,
}
use dns_entree.Text.{Bytes, codes, str_eq, to_lower, to_upper, contains, trim_suffix, join}
use dns_entree.Record.Errors.{Error, other, Result, ok, err}
use dns_entree.Dns.{
  Rdata, a, aaaa, cname, txt, mx, Rr, Answers, type_a, type_cname, type_mx, type_txt, type_aaaa,
}
use dns_entree.Push.Steps.{VerifyOpts}
use dns_entree.Template.Names.{is_empty, dot}
use dns_entree.Template.Keys.Decimal.{decimal_ℕ}

pub data Method : Type 0 where
  authoritative recursive_fallback : Method

pub record VerifyResult : Type 0 where
  pub verified : Bool
  pub current_value : Bytes
  pub method : Method
  pub nameservers_queried : List Bytes

-- What the network answers: the name servers of a domain, the address of a host, the reply of a
-- server to a question (none where there is no message), and the resolver of the system.
pub record Network : Type 0 where
  pub lookup_ns : Bytes → Result (List Bytes)
  pub address_of : Bytes → Result Bytes
  pub exchange : (addr name : Bytes) → (qtype : ℕ) → (recursion : Bool) → Result (Option Answers)
  pub recursive_addr : Bytes
  pub configured : Option Bytes

-- `none` for a type that is not supported.
unfoldable pub record_type_code : Bytes → Option ℕ
record_type_code t =
    let u = to_upper t in
    if str_eq u (codes "TXT")
    then some type_txt
    else if str_eq u (codes "CNAME")
    then some type_cname
    else if str_eq u (codes "MX")
    then some type_mx
    else if str_eq u (codes "A")
    then some type_a
    else if str_eq u (codes "AAAA")
    then some type_aaaa
    else none

unfoldable pub value_in : Rdata → List Bytes
value_in (txt parts) = join parts [] ∷ []
value_in (cname host) = trim_suffix host dot ∷ []
value_in (mx preference host) = (decimal_ℕ preference ++ (codes " " ++ trim_suffix host dot)) ∷ []
value_in (a ip) = ip ∷ []
value_in (aaaa ip) = ip ∷ []
value_in _ = []

unfoldable pub extract_values : Answers → ℕ → List Bytes
unfolding value_in
extract_values [] qtype = []
extract_values (none ∷ rrs) qtype = extract_values rrs qtype
extract_values (some rr ∷ rrs) qtype =
    let rest = extract_values rrs qtype in
    if rr.rrtype == qtype then value_in rr.body ++ rest else rest

unfoldable pub matches : Bytes → Bytes → Bool
unfolding is_empty
matches value wanted = if is_empty wanted then true else contains (to_lower value) (to_lower wanted)

unfoldable pub values_of : Result (Option Answers) → ℕ → Result (List Bytes)
unfolding extract_values
values_of (err e) qtype = err e
values_of (ok none) qtype = ok []
values_of (ok (some answers)) qtype = ok (extract_values answers qtype)

unfoldable pub query_server : Network → Bytes → Bytes → ℕ → Bool → Result (List Bytes)
unfolding values_of
query_server net addr name qtype recursion =
    values_of (net.exchange addr name qtype recursion) qtype

-- The loop over the values of an answer: it returns at the first match.
pub data Seen : Type 0 where
  matched unmatched : VerifyResult → Seen

-- The first value seen is kept; a value from the resolver sets the method too.
unfoldable pub note_value : Method → Bytes → VerifyResult → VerifyResult
unfolding is_empty
note_value how v r =
    if is_empty r.current_value then record r { current_value = v; method = how } else r

unfoldable pub see_values : Bytes → Method → List Bytes → VerifyResult → Seen
unfolding matches note_value
see_values wanted how [] r = unmatched r
see_values wanted how (v ∷ vs) r =
    let rest = see_values wanted how vs (note_value how v r) in
    if matches v wanted
    then matched (record r { verified = true; current_value = v; method = how })
    else rest

module _ (net : Network) (opts : VerifyOpts) (qtype : ℕ) where
  unfoldable pub after_query : Result (List Bytes) → VerifyResult → (VerifyResult → Seen) → Seen
  unfolding see_values
  after_query (err e) r next = next r
  after_query (ok vs) r next = elim (see_values opts.wanted authoritative vs r) [
    | matched r' ↦ matched r'
    | unmatched r' ↦ next r'
  ]

  unfoldable pub after_address : Result Bytes → VerifyResult → (VerifyResult → Seen) → Seen
  unfolding after_query query_server
  after_address (err e) r next = next r
  after_address (ok addr) r next = after_query (query_server net addr opts.name qtype false) r next

  -- At most so many servers are asked; a server that cannot be reached is passed over.
  unfoldable pub ask_servers : ℕ → List Bytes → VerifyResult → Seen
  unfolding after_address
  ask_servers zero hosts r = unmatched r
  ask_servers (suc n) [] r = unmatched r
  ask_servers (suc n) (h ∷ hs) r =
      let host = trim_suffix h dot in
      after_address (net.address_of host)
        (record r { nameservers_queried = r.nameservers_queried ++ host ∷ [] }) (ask_servers n hs)

  unfoldable pub ask_authoritative : Result (List Bytes) → VerifyResult → Seen
  unfolding ask_servers
  ask_authoritative (err e) r = unmatched r
  ask_authoritative (ok hosts) r = ask_servers 2 hosts r

  unfoldable pub resolver_address : Bytes
  unfolding is_empty
  resolver_address =
      if is_empty net.recursive_addr
      then elim net.configured [ none ↦ codes "8.8.8.8:53" | some addr ↦ addr ]
      else net.recursive_addr

  -- An answer with values but without a match is one of the resolver.
  unfoldable pub mark_method : List Bytes → VerifyResult → VerifyResult
  mark_method [] r = r
  mark_method (v ∷ vs) r = record r { method = recursive_fallback }

  -- The error is that of the resolver, where the lookup of the name servers failed too.
  unfoldable pub after_fallback :
      Result (List Bytes) → Result (List Bytes) → VerifyResult → VerifyResult × Option Error
  unfolding see_values mark_method
  after_fallback (err e) (err e') r = (r, some e)
  after_fallback (err e) (ok hosts) r = (r, none)
  after_fallback (ok vs) servers r = elim (see_values opts.wanted recursive_fallback vs r) [
    | matched r' ↦ (r', none)
    | unmatched r' ↦ (mark_method vs r', none)
  ]

  unfoldable pub fall_back : Result (List Bytes) → Seen → VerifyResult × Option Error
  unfolding after_fallback query_server resolver_address
  fall_back servers (matched r) = (r, none)
  fall_back servers (unmatched r) =
      after_fallback (query_server net resolver_address opts.name qtype true) servers r

abbrev pub unverified : VerifyResult
unverified = record {
  verified = false;
  current_value = [];
  method = authoritative;
  nameservers_queried = [];
}

unfoldable pub verify_typed : Option ℕ → Network → Bytes → VerifyOpts → VerifyResult × Option Error
unfolding ask_authoritative fall_back
verify_typed none net domain opts = (unverified, some (other (codes "unsupported record type")))
verify_typed (some qtype) net domain opts =
    let servers = net.lookup_ns domain in
    fall_back net opts qtype servers (ask_authoritative net opts qtype servers unverified)

unfoldable pub verify : Network → Bytes → VerifyOpts → VerifyResult × Option Error
unfolding verify_typed record_type_code
verify net domain opts = verify_typed (record_type_code opts.record_type) net domain opts
