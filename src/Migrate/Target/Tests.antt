-- ===== src/Migrate/Target/Tests.antt =====
-- A round of verification against one name server.
use dns_entree.Base.{ℤ, ◌≡◌, refl, false, List, [], ◌∷◌, some}
use dns_entree.Text.{Bytes, codes, to_upper, str_eq}
use dns_entree.Record.{Record, plain}
use dns_entree.Record.Errors.{other, ok, err}
use dns_entree.Dns.{a, soa, Rr, type_a, type_soa}
use dns_entree.Migrate.Target.{
  Target, type_string_to_code, verify_record_against_ns, VerifyTargetSummary, verify_against_ns,
  matched_on,
}
use dns_entree.Migrate.Target.Finds.{Finds, verify_record_against_ns-Finds}
use dns_entree.Migrate.Target.Round.{IsSummary, verify_against_ns-IsSummary}

abbrev same_text : Bytes → Bytes
same_text s = s

abbrev named : Record
named = plain (codes "a") (codes "www.a.example") (codes "10.0.0.1") (ℤ.pos 60)

abbrev answer : Rr
answer = record {
  name = codes "WWW.a.example.";
  rrtype = type_a;
  ttl = 300;
  body = a (codes "10.0.0.1");
}

abbrev live : Target
live = record {
  resolve = λ host. ok (codes "10.0.0.2:53");
  exchange = λ addr name qtype. ok (
      some (
        some (record { name = codes "a.example."; rrtype = type_soa; ttl = 60; body = soa })
        ∷ some answer
        ∷ []));
}

abbrev down : Target
down = record live { resolve = λ host. err (other (codes "no IPs")) }

abbrev quiet : Target
quiet = record live { exchange = λ addr name qtype. ok (some []) }

abbrev hosts : List Bytes
hosts = codes "ns1.b.example" ∷ []

code_run : type_string_to_code (codes "a") ≡ some type_a
unfolding type_string_to_code str_eq to_upper
code_run = refl

verify_record_against_ns-Finds_example :
    Finds same_text
      (λ t. [])
      named
      live
      type_a
      hosts
      false
      (verify_record_against_ns same_text (λ t. []) live hosts named)
verify_record_against_ns-Finds_example =
    verify_record_against_ns-Finds same_text (λ t. []) named live hosts type_a code_run

abbrev summary : VerifyTargetSummary
summary = record {
  matched = 1;
  total = 1;
  results =
      record { rec = named; status = codes "matched"; detail = matched_on (codes "ns1.b.example") }
      ∷ [];
}

round_run : verify_against_ns same_text (λ t. []) live hosts (named ∷ []) ≡ summary
unfolding verify_against_ns str_eq to_upper dns_entree.Text.to_lower dns_entree.Text.trim_suffix
round_run = refl

verify_against_ns_run :
    IsSummary same_text
      (λ t. [])
      live
      hosts
      (named ∷ [])
      (verify_against_ns same_text (λ t. []) live hosts (named ∷ []))
verify_against_ns_run = verify_against_ns-IsSummary same_text (λ t. []) live hosts (named ∷ [])
