-- ===== src/Migrate/Target.antt =====
-- verify_target.go: records compared with what the assigned name servers answer.
pub mod Finds
pub mod Round
mod Tests
use dns_entree.Base.{
  ℕ, zero, suc, Bool, true, false, ◌&&◌, ◌||◌, not, List, [], ◌∷◌, ◌++◌, Option, none, some, int_eq,
  if◌then◌else◌, length,
}
use dns_entree.Text.{Bytes, codes, str_eq, to_lower, to_upper, trim_suffix}
use dns_entree.Record.{Record}
use dns_entree.Record.Errors.{Error, Result, ok, err}
use dns_entree.Dns.{
  Rr, Answers, type_a, type_ns, type_cname, type_mx, type_txt, type_aaaa, type_srv, type_caa,
}
use dns_entree.Template.Names.{dot}
use dns_entree.Migrate.Convert.{Converted, kept, skipped, rr_to_record}

-- The text that goes with an outcome: only whether there is one decides anything.
pub data Detail : Type 0 where
  silent : Detail
  unverifiable matched_on : Bytes → Detail
  resolve_failed exchange_failed : Error → Detail
  differs : (got wanted : Record) → Detail

pub record Checked : Type 0 where
  pub matched : Bool
  pub got_any : Bool
  pub detail : Detail

unfoldable pub type_string_to_code : Bytes → Option ℕ
type_string_to_code t =
    let u = to_upper t in
    if str_eq u (codes "A")
    then some type_a
    else if str_eq u (codes "AAAA")
    then some type_aaaa
    else if str_eq u (codes "CNAME")
    then some type_cname
    else if str_eq u (codes "TXT")
    then some type_txt
    else if str_eq u (codes "MX")
    then some type_mx
    else if str_eq u (codes "NS")
    then some type_ns
    else if str_eq u (codes "SRV")
    then some type_srv
    else if str_eq u (codes "CAA")
    then some type_caa
    else none

-- `strings.EqualFold`.
unfoldable pub equal_fold : Bytes → Bytes → Bool
equal_fold s t = str_eq (to_lower s) (to_lower t)

unfoldable pub records_match : Record → Record → Bool
unfolding equal_fold
records_match want got =
    equal_fold want.typ got.typ
    && (equal_fold (trim_suffix want.name dot) (trim_suffix got.name dot)
        && ((str_eq want.content got.content || equal_fold want.content got.content)
            && (not (str_eq want.typ (codes "MX")) || int_eq want.priority got.priority)))

-- The address of a name server, and its reply; none where there is no message.
pub record Target : Type 0 where
  pub resolve : Bytes → Result Bytes
  pub exchange : (addr name : Bytes) → (qtype : ℕ) → Result (Option Answers)

unfoldable pub no_answers : Answers → Bool
no_answers [] = true
no_answers (rr ∷ rrs) = false

-- One answer: a match ends the search, and a record that differs leaves its detail.
unfoldable pub compare_answer : Record → Bytes → Converted → Detail → (Detail → Checked) → Checked
unfolding records_match
compare_answer rec server (skipped text) detail next = next detail
compare_answer rec server (kept got) detail next =
    if records_match rec got
    then record { matched = true; got_any = true; detail = matched_on server }
    else next (differs got rec)

module _ (quote : Bytes → Bytes) (type_name : ℕ → Bytes) where
  -- The loop over the answers of one server.
  unfoldable pub see_answers : Record → Bytes → Answers → Detail → (Detail → Checked) → Checked
  unfolding compare_answer rr_to_record
  see_answers rec server [] detail next = next detail
  see_answers rec server (rr ∷ rrs) detail next =
      compare_answer rec server (rr_to_record quote type_name rr) detail
        (λ d. see_answers rec server rrs d next)

  -- A server without a reply leaves its error, if it has one.
  unfoldable pub after_exchange :
      Record → Bytes → Result (Option Answers) → Bool → Detail → (Bool → Detail → Checked) → Checked
  unfolding see_answers no_answers
  after_exchange rec server (err e) got_any detail next = next got_any (exchange_failed e)
  after_exchange rec server (ok none) got_any detail next = next got_any detail
  after_exchange rec server (ok (some rrs)) got_any detail next =
      see_answers rec server rrs detail (next (got_any || not (no_answers rrs)))

  module _ (target : Target) where
    unfoldable pub after_resolve :
        Record → ℕ → Bytes → Result Bytes → Bool → Detail → (Bool → Detail → Checked) → Checked
    unfolding after_exchange
    after_resolve rec qtype server (err e) got_any detail next = next got_any (resolve_failed e)
    after_resolve rec qtype server (ok addr) got_any detail next =
        after_exchange rec server (target.exchange addr rec.name qtype) got_any detail next

    unfoldable pub ask_each : Record → ℕ → List Bytes → Bool → Detail → Checked
    unfolding after_resolve
    ask_each rec qtype [] got_any detail = record {
      matched = false;
      got_any = got_any;
      detail = detail;
    }
    ask_each rec qtype (n ∷ ns) got_any detail =
        after_resolve rec qtype n (target.resolve n) got_any detail (ask_each rec qtype ns)

    unfoldable pub ask_typed : Option ℕ → List Bytes → Record → Checked
    unfolding ask_each
    ask_typed none hosts rec = record {
      matched = false;
      got_any = true;
      detail = unverifiable rec.typ;
    }
    ask_typed (some qtype) hosts rec = ask_each rec qtype hosts false silent

    unfoldable pub verify_record_against_ns : List Bytes → Record → Checked
    unfolding ask_typed type_string_to_code
    verify_record_against_ns hosts rec = ask_typed (type_string_to_code rec.typ) hosts rec

pub record VerifyResult : Type 0 where
  pub rec : Record
  pub status : Bytes
  pub detail : Detail

pub record VerifyTargetSummary : Type 0 where
  pub matched : ℕ
  pub total : ℕ
  pub results : List VerifyResult

abbrev pub is_told : Detail → Bool
is_told silent = false
is_told _ = true

unfoldable pub status_of : Checked → Bytes
status_of c =
    if c.matched
    then codes "matched"
    else if c.got_any
    then codes "mismatch"
    else if is_told c.detail
    then codes "not_yet_propagated"
    else codes "error"

abbrev pub one_if : Bool → ℕ → ℕ
one_if true n = suc n
one_if false n = n

module _ (quote : Bytes → Bytes) (type_name : ℕ → Bytes) (target : Target)
    (hosts : List Bytes) where
  unfoldable pub verify_each : List Record → VerifyTargetSummary → VerifyTargetSummary
  unfolding verify_record_against_ns status_of
  verify_each [] out = out
  verify_each (rec ∷ recs) out =
      let c = verify_record_against_ns quote type_name target hosts rec in
      verify_each recs (record out {
        matched = one_if c.matched out.matched;
        results = out.results ++ record { rec = rec; status = status_of c; detail = c.detail } ∷ [];
      })

  unfoldable pub verify_against_ns : List Record → VerifyTargetSummary
  unfolding verify_each
  verify_against_ns records =
      verify_each records (record { matched = 0; total = length records; results = [] })
