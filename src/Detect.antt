-- ===== src/Detect.antt =====
-- detect.go: the DNS provider of a domain from its name servers, or from its registrar.
pub mod Rdap
pub mod Laws
mod Tests
use dns_entree.Base.{
  ℕ, Bool, true, false, ◌&&◌, ◌||◌, not, List, [], ◌∷◌, ◌++◌, map, Option, none, some,
  if◌then◌else◌, any, find?, length, ltb,
}
use dns_entree.Text.{Bytes, codes, str_eq, to_lower, contains, trim_suffix}

pub data Method : Type 0 where
  ns_pattern rdap_fallback : Method

-- An empty provider is none.
pub record DetectionResult : Type 0 where
  pub provider : Bytes
  pub label : Bytes
  pub supported : Bool
  pub nameservers : List Bytes
  pub method : Method

abbrev pub Patterns : Type 0
Patterns = List (Bytes × Bytes)

abbrev pub ns_patterns : Patterns
ns_patterns =
    (codes "cloudflare.com", codes "cloudflare")
    ∷ (codes "awsdns", codes "route53")
    ∷ (codes "domaincontrol.com", codes "godaddy")
    ∷ (codes "godaddy.com", codes "godaddy")
    ∷ (codes "googledomains.com", codes "google_cloud_dns")
    ∷ (codes "squarespace", codes "squarespace")
    ∷ (codes "namecheap", codes "namecheap")
    ∷ (codes "hover.com", codes "hover")
    ∷ (codes "digitalocean.com", codes "digitalocean")
    ∷ (codes "hetzner.com", codes "hetzner")
    ∷ (codes "registrar-servers.com", codes "namecheap")
    ∷ (codes "dns-parking.com", codes "namecheap")
    ∷ (codes "nsone.net", codes "ns1")
    ∷ (codes "dnsv.jp", codes "dnsv")
    ∷ (codes "linode.com", codes "linode")
    ∷ (codes "vultr.com", codes "vultr")
    ∷ (codes "dnsimple.com", codes "dnsimple")
    ∷ []

abbrev pub provider_labels : Patterns
provider_labels =
    (codes "cloudflare", codes "Cloudflare")
    ∷ (codes "route53", codes "Amazon Route 53")
    ∷ (codes "godaddy", codes "GoDaddy")
    ∷ (codes "google_cloud_dns", codes "Google Cloud DNS")
    ∷ (codes "squarespace", codes "Squarespace")
    ∷ (codes "namecheap", codes "Namecheap")
    ∷ (codes "hover", codes "Hover")
    ∷ (codes "digitalocean", codes "DigitalOcean")
    ∷ (codes "hetzner", codes "Hetzner")
    ∷ (codes "ns1", codes "NS1")
    ∷ (codes "dnsv", codes "DNSV")
    ∷ (codes "linode", codes "Linode")
    ∷ (codes "vultr", codes "Vultr")
    ∷ (codes "dnsimple", codes "DNSimple")
    ∷ []

abbrev pub tier1_providers : List Bytes
tier1_providers =
    codes "cloudflare"
    ∷ codes "route53"
    ∷ codes "godaddy"
    ∷ codes "google_cloud_dns"
    ∷ codes "namecheap"
    ∷ []

abbrev pub registrar_patterns : Patterns
registrar_patterns =
    (codes "squarespace", codes "squarespace")
    ∷ (codes "godaddy", codes "godaddy")
    ∷ (codes "cloudflare", codes "cloudflare")
    ∷ (codes "namecheap", codes "namecheap")
    ∷ (codes "amazon", codes "route53")
    ∷ (codes "route 53", codes "route53")
    ∷ (codes "google", codes "google_cloud_dns")
    ∷ (codes "hover", codes "hover")
    ∷ (codes "digitalocean", codes "digitalocean")
    ∷ (codes "hetzner", codes "hetzner")
    ∷ []

-- The provider of the first pattern that stands in the text.
unfoldable pub first_match : Bytes → Patterns → Option Bytes
first_match text [] = none
first_match text ((pattern, provider) ∷ ps) =
    if contains text pattern then some provider else first_match text ps

-- A missing key reads as the empty text.
unfoldable pub label_of : Bytes → Patterns → Bytes
label_of p [] = []
label_of p ((k, v) ∷ ls) = if str_eq k p then v else label_of p ls

unfoldable pub is_supported : Bytes → Bool
is_supported p = any (λ t. str_eq t p) tier1_providers

unfoldable pub found : List Bytes → Method → Bytes → DetectionResult
unfolding label_of is_supported
found hosts how p = record {
  provider = p;
  label = label_of p provider_labels;
  supported = is_supported p;
  nameservers = hosts;
  method = how;
}

abbrev pub not_found : List Bytes → DetectionResult
not_found hosts = record {
  provider = [];
  label = [];
  supported = false;
  nameservers = hosts;
  method = ns_pattern;
}

unfoldable pub detect_hosts : List Bytes → Option Bytes
unfolding first_match
detect_hosts [] = none
detect_hosts (h ∷ hs) = elim (first_match (to_lower h) ns_patterns) [
  | none ↦ detect_hosts hs
  | some p ↦ some p
]

unfoldable pub detect_from_ns : List Bytes → DetectionResult
unfolding detect_hosts found
detect_from_ns hosts = elim (detect_hosts hosts) [
  | none ↦ not_found hosts
  | some p ↦ found hosts ns_pattern p
]

-- `""` where no pattern matches.
unfoldable pub registrar_to_provider : Bytes → Bytes
unfolding first_match
registrar_to_provider registrar = elim (first_match (to_lower registrar) registrar_patterns) [
  | none ↦ []
  | some p ↦ p
]

unfoldable pub is_ambiguous : Bytes → Bool
is_ambiguous p = str_eq p [] || str_eq p (codes "google_cloud_dns")

-- The registrar's answer replaces that of the name servers where it names another provider.
unfoldable pub override_by : Bytes → DetectionResult → DetectionResult
unfolding registrar_to_provider found
override_by registrar r =
    if str_eq registrar []
      || (str_eq (registrar_to_provider registrar) []
          || str_eq (registrar_to_provider registrar) r.provider)
    then r
    else found r.nameservers rdap_fallback (registrar_to_provider registrar)

-- `net.LookupNS` gives the hosts or an error, and `lookup_registrar` the name or `""`.
unfoldable pub detect_provider :
    (Bytes → Option (List Bytes)) → (Bytes → Bytes) → Bytes → Option DetectionResult
unfolding detect_from_ns is_ambiguous override_by
detect_provider lookup_ns lookup_registrar domain = elim (lookup_ns domain) [
  | none ↦ none
  | some raw ↦
      let result = detect_from_ns (map (λ h. to_lower (trim_suffix h (codes "."))) raw) in
      some (
        if is_ambiguous result.provider
        then override_by (lookup_registrar domain) result
        else result)
]
