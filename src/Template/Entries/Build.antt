-- ===== src/Template/Entries/Build.antt =====
-- The `switch typ` of `ProcessRecords`: the entries of one template record, each type with its checks.
use dns_entree.Base.{
  ℕ, ℤ, ◌+◌, Bool, true, false, ◌&&◌, ◌||◌, not, List, [], ◌∷◌, ◌++◌, map, Option, none, some,
  if◌then◌else◌, any, ltb, ◌==◌,
}
use dns_entree.Text.{Bytes, codes, str_eq, to_upper, contains_any}
use dns_entree.Record.{Record, plain}
use dns_entree.Template.Types.{
  TemplateRecord, Entry, invalid_data, invalid_template, Processed, good, bad, ◌>>=◌, ◌>>◌,
  refuse_if,
}
use dns_entree.Template.Substitute.{Vars, process_substitute, resolve_int}
use dns_entree.Template.Names.{is_empty, is_apex, at, valid_host, valid_ip, valid_target_length}
use dns_entree.Template.Keys.{normalize_record}
use dns_entree.Template.Entries.{Request, Fields, or_else}

-- `url.Parse`: the scheme and the host, where the text is a URL.
abbrev pub UrlParser : Type 0
UrlParser = Bytes → Option (Bytes × Bytes)

unfoldable pub count_byte : ℕ → Bytes → ℕ
count_byte b [] = 0
count_byte b (c ∷ s) = (if c == b then 1 else 0) + count_byte b s

unfoldable pub valid_redirect : Option (Bytes × Bytes) → Bool
unfolding count_byte is_empty
valid_redirect none = false
valid_redirect (some (scheme, host)) =
    (str_eq scheme (codes "http") || str_eq scheme (codes "https"))
    && (not (is_empty host) && not (ltb 1 (count_byte b':' host)))

abbrev pub entry : TemplateRecord → Record → List Entry
entry tr r = record { rec = r; template = tr; is_backing = false } ∷ []

-- `rec = normalizeRecord(rec)` and the `append` behind the switch.
unfoldable pub normal_entry : TemplateRecord → Record → List Entry
unfolding normalize_record
normal_entry tr r = entry tr (normalize_record r)

-- `backingTTL, _ := …`: 0 on an error.
abbrev pub ttl_of : Processed ℤ → ℤ
ttl_of (good n) = n
ttl_of (bad e) = ℤ.pos 0

-- The A and AAAA records that a redirect needs at its host.
unfoldable pub backing : Vars → Bytes → TemplateRecord → Entry
unfolding normalize_record or_else resolve_int
backing vars host rr = record {
  rec = normalize_record (
      plain (to_upper rr.typ) host (or_else rr.points_to rr.target)
        (ttl_of (resolve_int rr.ttl vars)));
  template = rr;
  is_backing = true;
}

unfoldable pub no_records : List TemplateRecord → Bool
no_records [] = true
no_records (r ∷ rs) = false

module _ (parse_url : UrlParser) where
  unfoldable pub build_redirect : Request → TemplateRecord → Bytes → Fields → Processed (List Entry)
  unfolding no_records process_substitute valid_redirect backing is_empty
  build_redirect q tr typ f = do
    refuse_if (no_records q.redirects) invalid_template
    target ← process_substitute f.points_raw q.vars
    refuse_if (is_empty target) invalid_data
    refuse_if (not (valid_redirect (parse_url target))) invalid_data
    good (entry tr (plain typ f.host target (ℤ.pos 0)) ++ map (backing q.vars f.host) q.redirects)

unfoldable pub build_apex_cname : TemplateRecord → Fields → Processed (List Entry)
unfolding is_apex is_empty normal_entry
build_apex_cname tr f = do
  refuse_if (not (is_apex f.host)) invalid_data
  refuse_if (is_empty f.points_to) invalid_data
  good (normal_entry tr (plain (codes "APEXCNAME") at f.points_to f.ttl))

unfoldable pub valid_protocol : Bytes → Bool
valid_protocol p =
    any (str_eq p)
      (codes "udp" ∷ codes "tcp" ∷ codes "tls" ∷ codes "UDP" ∷ codes "TCP" ∷ codes "TLS" ∷ [])

unfoldable pub build_srv : Request → TemplateRecord → Fields → Processed (List Entry)
unfolding valid_host is_apex is_empty valid_protocol resolve_int normal_entry
build_srv q tr f = do
  refuse_if (not (valid_host f.host)) invalid_data
  refuse_if (is_apex f.host && is_empty q.host) invalid_data
  refuse_if (not (is_empty f.protocol) && not (valid_protocol f.protocol)) invalid_data
  refuse_if (is_empty f.points_to) invalid_data
  refuse_if (contains_any f.points_to (codes " \t")) invalid_data
  refuse_if (contains_any tr.service (codes " \t")) invalid_data
  prio ← resolve_int tr.priority q.vars
  w ← resolve_int tr.weight q.vars
  p ← resolve_int tr.port q.vars
  good (
      normal_entry tr (record (plain (codes "SRV") f.host f.points_to f.ttl) {
        priority = prio;
        weight = w;
        port = p;
        service = tr.service;
        protocol = f.protocol;
      }))

unfoldable pub build_cname : TemplateRecord → Fields → Processed (List Entry)
unfolding valid_host is_apex is_empty valid_target_length normal_entry
build_cname tr f = do
  refuse_if (not (valid_host f.host)) invalid_data
  refuse_if (is_apex f.host) invalid_data
  refuse_if (is_empty f.points_to) invalid_data
  refuse_if (not (valid_target_length f.points_to)) invalid_data
  good (normal_entry tr (plain (codes "CNAME") f.host f.points_to f.ttl))

unfoldable pub build_address : TemplateRecord → Bytes → Fields → Processed (List Entry)
unfolding valid_host is_empty valid_ip normal_entry
build_address tr typ f = do
  refuse_if (not (valid_host f.host)) invalid_data
  refuse_if (is_empty f.points_to) invalid_data
  refuse_if (not (valid_ip typ f.points_to)) invalid_data
  good (normal_entry tr (plain typ f.host f.points_to f.ttl))

unfoldable pub build_mx : Request → TemplateRecord → Fields → Processed (List Entry)
unfolding valid_host is_empty resolve_int normal_entry
build_mx q tr f = do
  refuse_if (not (valid_host f.host)) invalid_data
  refuse_if (is_empty f.points_to) invalid_data
  prio ← resolve_int tr.priority q.vars
  good (normal_entry tr (record (plain (codes "MX") f.host f.points_to f.ttl) { priority = prio }))

unfoldable pub build_ns : TemplateRecord → Fields → Processed (List Entry)
unfolding valid_host is_empty normal_entry
build_ns tr f = do
  refuse_if (not (valid_host f.host)) invalid_data
  refuse_if (is_empty f.points_to) invalid_data
  refuse_if (str_eq f.points_sub at) invalid_data
  good (normal_entry tr (plain (codes "NS") f.host f.points_to f.ttl))

unfoldable pub build_custom : TemplateRecord → Bytes → Fields → Processed (List Entry)
unfolding valid_host is_empty normal_entry
build_custom tr typ f = do
  refuse_if (not (valid_host f.host)) invalid_data
  refuse_if (str_eq f.text at) invalid_data
  refuse_if (is_empty f.text) invalid_data
  good (normal_entry tr (plain typ f.host f.text f.ttl))

-- SPFM and TXT records: only the host is checked, and an SPFM record is not normalised.
unfoldable pub build_text :
    TemplateRecord → Fields → (Record → List Entry) → Record → Processed (List Entry)
unfolding valid_host
build_text tr f wrap r = do refuse_if (not (valid_host f.host)) invalid_data; good (wrap r)
