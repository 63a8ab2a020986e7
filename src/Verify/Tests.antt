-- ===== src/Verify/Tests.antt =====
-- A domain whose first name server cannot be reached and whose second one answers.
use dns_entree.Base.{◌≡◌, refl, true, [], ◌∷◌, none, some, if◌then◌else◌}
use dns_entree.Text.{Bytes, codes, str_eq}
use dns_entree.Record.Errors.{other, ok, err}
use dns_entree.Dns.{txt, mx, Rr, type_txt, type_mx}
use dns_entree.Push.Steps.{VerifyOpts}
use dns_entree.Verify.{
  authoritative, recursive_fallback, VerifyResult, Network, record_type_code, extract_values,
  verify,
}
use dns_entree.Verify.Laws.{observed, IsObserved, verify-IsObserved}

abbrev answer : Rr
answer = record {
  name = codes "a.example.";
  rrtype = type_txt;
  ttl = 300;
  body = txt (codes "v=spf1 " ∷ codes "-all" ∷ []);
}

abbrev net : Network
net = record {
  lookup_ns = λ domain. ok (codes "ns1.example." ∷ codes "ns2.example." ∷ []);
  address_of = λ host.
      if str_eq host (codes "ns1.example")
      then err (other (codes "no IPs"))
      else ok (codes "10.0.0.2:53");
  exchange = λ addr name qtype recursion. ok (some (none ∷ some answer ∷ []));
  recursive_addr = [];
  configured = none;
}

abbrev opts : VerifyOpts
opts = record { record_type = codes "txt"; name = codes "a.example"; wanted = codes "V=SPF1" }

abbrev found : VerifyResult
found = record {
  verified = true;
  current_value = codes "v=spf1 -all";
  method = authoritative;
  nameservers_queried = codes "ns1.example" ∷ codes "ns2.example" ∷ [];
}

verify_run : verify net (codes "a.example") opts ≡ (found, none)
unfolding verify str_eq dns_entree.Text.to_upper dns_entree.Text.trim_suffix
    dns_entree.Text.contains dns_entree.Text.to_lower dns_entree.Text.join
verify_run = refl

abbrev silent : Network
silent = record net { lookup_ns = λ domain. err (other (codes "no such host")) }

fallback_run :
    verify silent (codes "a.example") opts
    ≡ (record found { method = recursive_fallback; nameservers_queried = [] }, none)
unfolding verify str_eq dns_entree.Text.to_upper dns_entree.Text.contains dns_entree.Text.to_lower
    dns_entree.Text.join
fallback_run = refl

mx_run :
    extract_values
      (some (record {
        name = codes "a.example.";
        rrtype = type_mx;
        ttl = 300;
        body = mx 10 (codes "mail.example.");
      })
        ∷ [])
      type_mx
    ≡ codes "10 mail.example" ∷ []
unfolding extract_values dns_entree.Template.Keys.Decimal.decimal_ℕ dns_entree.Text.trim_suffix
mx_run = refl

code_run : record_type_code (codes "txt") ≡ some type_txt
unfolding record_type_code str_eq dns_entree.Text.to_upper
code_run = refl

verify-IsObserved_example :
    IsObserved
      (codes "V=SPF1")
      (observed net (codes "a.example") opts type_txt)
      (verify net (codes "a.example") opts)
verify-IsObserved_example = verify-IsObserved net (codes "a.example") opts type_txt code_run
