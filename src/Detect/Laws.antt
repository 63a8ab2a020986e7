-- ===== src/Detect/Laws.antt =====
-- What a detected provider rests on.
use dns_entree.Base.{
  ◌≡◌, refl, sym, ap, subst, Bool, true, false, ◌||◌, List, [], ◌∷◌, ◌++◌, map, Option, none, some,
  if◌then◌else◌, arith, Bool-cases, inl, inr, ◌⊎◌, All,
}
use dns_entree.Text.{Bytes, codes, str_eq, to_lower, contains, trim_suffix}
use dns_entree.Detect.{
  Method, ns_pattern, rdap_fallback, DetectionResult, Patterns, ns_patterns, provider_labels,
  first_match, label_of, is_supported, found, not_found, detect_hosts, detect_from_ns,
  registrar_to_provider, is_ambiguous, override_by, detect_provider,
}

-- No pattern stands in the text.
abbrev pub Unmatched : Bytes → Patterns → Type 0
Unmatched text ps = All (λ p. contains text p.0 ≡ false) ps

-- The first pattern that stands in the text, with its provider.
pub record IsFirst (text : Bytes) (ps : Patterns) (provider : Bytes) : Type 0 where
  pub before : Patterns
  pub pattern : Bytes
  pub after : Patterns
  pub patterns : ps ≡ before ++ ((pattern, provider) ∷ after)
  pub skipped : Unmatched text before
  pub stands : contains text pattern ≡ true

abbrev pub Matched : Bytes → Patterns → Option Bytes → Type 0
Matched text ps none = Unmatched text ps
Matched text ps (some provider) = IsFirst text ps provider

later-Matched :
    (text : Bytes) (p : Bytes × Bytes) (ps : Patterns) (o : Option Bytes)
    → contains text p.0 ≡ false
    → Matched text ps o
    → Matched text (p ∷ ps) o
later-Matched text p ps none n m = (n, m)
later-Matched text p ps (some v) n m = record {
  before = p ∷ m.before;
  pattern = m.pattern;
  after = m.after;
  patterns = ap (λ qs. p ∷ qs) m.patterns;
  skipped = (n, m.skipped);
  stands = m.stands;
}

first_match-Matched : (text : Bytes) (ps : Patterns) → Matched text ps (first_match text ps)
unfolding first_match
first_match-Matched text [] = tt
first_match-Matched text ((k, v) ∷ ps) = elim (Bool-cases (contains text k)) [
  | inl y ↦
      rw y
        (record { before = []; pattern = k; after = ps; patterns = refl; skipped = tt; stands = y })
  | inr n ↦
      rw n (later-Matched text (k, v) ps (first_match text ps) n (first_match-Matched text ps))
]

-- The first host in which a pattern stands, and the first such pattern.
pub record IsDetected (hosts : List Bytes) (provider : Bytes) : Type 0 where
  pub before : List Bytes
  pub host : Bytes
  pub after : List Bytes
  pub hosts_are : hosts ≡ before ++ (host ∷ after)
  pub unknown : All (λ h. Unmatched (to_lower h) ns_patterns) before
  pub first : IsFirst (to_lower host) ns_patterns provider

abbrev pub Detected : List Bytes → Option Bytes → Type 0
Detected hosts none = All (λ h. Unmatched (to_lower h) ns_patterns) hosts
Detected hosts (some provider) = IsDetected hosts provider

later-Detected :
    (h : Bytes) (hosts : List Bytes) (o : Option Bytes)
    → Unmatched (to_lower h) ns_patterns
    → Detected hosts o
    → Detected (h ∷ hosts) o
later-Detected h hosts none n d = (n, d)
later-Detected h hosts (some v) n d = record {
  before = h ∷ d.before;
  host = d.host;
  after = d.after;
  hosts_are = ap (λ x. h ∷ x) d.hosts_are;
  unknown = (n, d.unknown);
  first = d.first;
}

detect_hosts-Detected : (hosts : List Bytes) → Detected hosts (detect_hosts hosts)
unfolding detect_hosts
detect_hosts-Detected [] = tt
detect_hosts-Detected (h ∷ hosts) =
    go (first_match (to_lower h) ns_patterns) (first_match-Matched (to_lower h) ns_patterns)
      (detect_hosts-Detected hosts)
  where
    go :
        (o : Option Bytes)
        → Matched (to_lower h) ns_patterns o
        → Detected hosts (detect_hosts hosts)
        → Detected (h ∷ hosts) (elim o [ none ↦ detect_hosts hosts | some p ↦ some p ])
    go none m rest = later-Detected h hosts (detect_hosts hosts) m rest
    go (some p) m rest = record {
      before = [];
      host = h;
      after = hosts;
      hosts_are = refl;
      unknown = tt;
      first = m;
    }

-- The result of the pattern search, with what it says of the provider.
pub record IsExplained (hosts : List Bytes) (r : DetectionResult) : Type 0 where
  pub names : r.nameservers ≡ hosts
  pub how : r.method ≡ ns_pattern
  pub why :
      ((r ≡ not_found hosts) × All (λ h. Unmatched (to_lower h) ns_patterns) hosts)
      ⊎ (IsDetected hosts r.provider
          × ((r.label ≡ label_of r.provider provider_labels)
              × (r.supported ≡ is_supported r.provider)))

-- The provider that is detected from the name servers is that of the first pattern in the first host,
-- in lower case, in which any pattern stands, with its label and support flag; and none is detected
-- only where no pattern stands in any host.
pub detect_from_ns-IsExplained : (hosts : List Bytes) → IsExplained hosts (detect_from_ns hosts)
unfolding detect_from_ns found
detect_from_ns-IsExplained hosts = go (detect_hosts hosts) (detect_hosts-Detected hosts)
  where
    go :
        (o : Option Bytes)
        → Detected hosts o
        → IsExplained hosts (elim o [ none ↦ not_found hosts | some p ↦ found hosts ns_pattern p ])
    go none d = record { names = refl; how = refl; why = inl (refl, d) }
    go (some p) d = record { names = refl; how = refl; why = inr (d, (refl, refl)) }

abbrev pub clean_hosts : List Bytes → List Bytes
clean_hosts raw = map (λ h. to_lower (trim_suffix h (codes "."))) raw

-- The registrar is heard only where the name servers leave the provider open, and it then names
-- another provider.
pub record IsOverridden (hosts : List Bytes) (registrar : Bytes) (r : DetectionResult)
    : Type 0 where
  pub undecided : is_ambiguous (detect_from_ns hosts).provider ≡ true
  pub names : r.provider ≡ registrar_to_provider registrar
  pub known : str_eq r.provider [] ≡ false
  pub other : str_eq r.provider (detect_from_ns hosts).provider ≡ false
  pub label : r.label ≡ label_of r.provider provider_labels

abbrev pub ByMethod : List Bytes → Bytes → DetectionResult → Method → Type 0
ByMethod hosts registrar r ns_pattern = r ≡ detect_from_ns hosts
ByMethod hosts registrar r rdap_fallback = IsOverridden hosts registrar r

detected-method : (hosts : List Bytes) → (detect_from_ns hosts).method ≡ ns_pattern
detected-method hosts = (detect_from_ns-IsExplained hosts).how

plain-ByMethod :
    (hosts : List Bytes) (registrar : Bytes)
    → ByMethod hosts registrar (detect_from_ns hosts) (detect_from_ns hosts).method
plain-ByMethod hosts registrar =
    subst (ByMethod hosts registrar (detect_from_ns hosts)) (sym (detected-method hosts)) refl

override-ByMethod :
    (hosts : List Bytes) (registrar : Bytes)
    → is_ambiguous (detect_from_ns hosts).provider ≡ true
    → ByMethod hosts registrar
        (override_by registrar (detect_from_ns hosts))
        (override_by registrar (detect_from_ns hosts)).method
unfolding override_by found
override-ByMethod hosts registrar a = go test refl
  where
    heard : Bytes
    heard = registrar_to_provider registrar

    test : Bool
    test = str_eq registrar [] || (str_eq heard [] || str_eq heard (detect_from_ns hosts).provider)

    heard_result : DetectionResult
    heard_result = found (detect_from_ns hosts).nameservers rdap_fallback heard

    go :
        (b : Bool)
        → test ≡ b
        → ByMethod hosts registrar
            (if b then detect_from_ns hosts else heard_result)
            (if b then detect_from_ns hosts else heard_result).method
    go true e = plain-ByMethod hosts registrar
    go false e = record {
      undecided = a;
      names = refl;
      known = ground arith;
      other = ground arith;
      label = refl;
    }

chosen-ByMethod :
    (hosts : List Bytes) (registrar : Bytes) (b : Bool)
    → is_ambiguous (detect_from_ns hosts).provider ≡ b
    → ByMethod hosts registrar
        (if b then override_by registrar (detect_from_ns hosts) else detect_from_ns hosts)
        (if b then override_by registrar (detect_from_ns hosts) else detect_from_ns hosts).method
chosen-ByMethod hosts registrar true a = override-ByMethod hosts registrar a
chosen-ByMethod hosts registrar false a = plain-ByMethod hosts registrar

-- A result that rests on the name servers is theirs; one that rests on the registrar came about only
-- where they left the provider open (none, or Google), and names a known provider that is not theirs.
pub detect_provider-ByMethod :
    (lookup_ns : Bytes → Option (List Bytes)) (lookup_registrar : Bytes → Bytes) (domain : Bytes)
    (raw : List Bytes) (r : DetectionResult)
    → lookup_ns domain ≡ some raw
    → detect_provider lookup_ns lookup_registrar domain ≡ some r
    → ByMethod (clean_hosts raw) (lookup_registrar domain) r r.method
unfolding detect_provider
detect_provider-ByMethod lookup_ns lookup_registrar domain raw r e h =
    subst (λ x. ByMethod hosts registrar x x.method) same
      (chosen-ByMethod hosts registrar (is_ambiguous (detect_from_ns hosts).provider) refl)
  where
    hosts : List Bytes
    hosts = clean_hosts raw

    registrar : Bytes
    registrar = lookup_registrar domain

    final : DetectionResult
    final =
        if is_ambiguous (detect_from_ns hosts).provider
        then override_by registrar (detect_from_ns hosts)
        else detect_from_ns hosts

    reached : some final ≡ some r
    reached = rw (e, detect_provider) at h

    same : final ≡ r
    same = cc
