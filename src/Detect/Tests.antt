-- ===== src/Detect/Tests.antt =====
-- Detection at concrete name servers and registrars.
use dns_entree.Base.{◌≡◌, refl, false, List, [], ◌∷◌, Option, none, some}
use dns_entree.Text.{Bytes, codes, str_eq, to_lower, contains, trim_suffix}
use dns_entree.Detect.{rdap_fallback, DetectionResult, detect_from_ns, detect_provider}
use dns_entree.Detect.Rdap.{Entity, lookup_registrar}
use dns_entree.Detect.Laws.{
  IsExplained, detect_from_ns-IsExplained, clean_hosts, ByMethod, detect_provider-ByMethod,
}

abbrev hosts : List Bytes
hosts = codes "ns1.unknown.example" ∷ codes "NS-1.AWSDNS-2.com" ∷ []

detect_run : (detect_from_ns hosts).label ≡ codes "Amazon Route 53"
unfolding detect_from_ns contains to_lower str_eq
detect_run = refl

detect_from_ns_case : IsExplained hosts (detect_from_ns hosts)
detect_from_ns_case = detect_from_ns-IsExplained hosts

abbrev google_ns : Bytes → Option (List Bytes)
google_ns domain = some (codes "ns-cloud-a1.googledomains.com." ∷ [])

-- The registry of .com names Squarespace.
abbrev answer : Bytes → Option (List Entity)
answer url = some (
    record {
      roles = codes "registrar" ∷ [];
      vcard =
          some ((some (codes "fn") ∷ none ∷ none ∷ some (codes "Squarespace Domains") ∷ []) ∷ []);
    }
    ∷ [])

abbrev moved : DetectionResult
moved = record {
  provider = codes "squarespace";
  label = codes "Squarespace";
  supported = false;
  nameservers = codes "ns-cloud-a1.googledomains.com" ∷ [];
  method = rdap_fallback;
}

moved_run : detect_provider google_ns (lookup_registrar answer) (codes "a.com") ≡ some moved
unfolding detect_provider str_eq contains to_lower trim_suffix lookup_registrar
moved_run = refl

detect_provider-ByMethod_example :
    ByMethod
      (clean_hosts (codes "ns-cloud-a1.googledomains.com." ∷ []))
      (lookup_registrar answer (codes "a.com"))
      moved
      rdap_fallback
detect_provider-ByMethod_example =
    detect_provider-ByMethod google_ns (lookup_registrar answer) (codes "a.com")
      (codes "ns-cloud-a1.googledomains.com." ∷ []) moved refl moved_run
