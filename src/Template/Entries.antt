-- ===== src/Template/Entries.antt =====
-- The first loop of `ProcessRecords`: a record of the template to the entries that it stands for.
pub mod Build
pub mod Switch
pub mod Yields
pub mod Kinds
pub mod Laws
use dns_entree.Base.{
  ℕ, ℤ, ◌+◌, Bool, true, false, ◌&&◌, ◌||◌, not, List, [], ◌∷◌, ◌++◌, map, Option, none, some,
  if◌then◌else◌, any, leb, ltb, ◌==◌, length,
}
use dns_entree.Text.{
  Bytes, codes, str_eq, to_lower, to_upper, trim_space, trim_prefix, has_prefix, contains_any,
}
use dns_entree.Template.Types.{
  FlexInt, TemplateRecord, Entry, ProcessError, invalid_data, invalid_template, type_error,
  Processed, good, bad, ◌>>=◌, ◌>>◌, refuse_if,
}
use dns_entree.Template.Substitute.{Vars, process_substitute, is_unclosed, resolve_int}
use dns_entree.Template.Names.{is_empty, is_apex, all_bytes, resolve_host_name, resolve_points_to}

abbrev pub is_digit : ℕ → Bool
is_digit c = leb b'0' c && leb c b'9'

abbrev pub is_alnum : ℕ → Bool
is_alnum c = (leb b'A' c && leb c b'Z') || ((leb b'a' c && leb c b'z') || is_digit c)

-- `knownTypes` holds only texts that the last test accepts too.
unfoldable pub valid_record_type : Bytes → Bool
unfolding all_bytes is_empty
valid_record_type typ =
    if has_prefix typ (codes "TYPE") && ltb 4 (length typ)
    then all_bytes is_digit (trim_prefix typ (codes "TYPE"))
    else all_bytes is_alnum typ && not (is_empty typ)

-- `opts` as far as the loop reads it; `domain` is in lower case.
pub record Request : Type 0 where
  pub domain : Bytes
  pub host : Bytes
  pub vars : Vars
  pub redirects : List TemplateRecord

-- The fields of one record with their variables put in and its names resolved.
pub record Fields : Type 0 where
  pub host : Bytes
  pub points_raw : Bytes
  pub points_sub : Bytes
  pub points_to : Bytes
  pub text : Bytes
  pub spf_rules : Bytes
  pub protocol : Bytes
  pub ttl : ℤ

unfoldable pub or_else : Bytes → Bytes → Bytes
unfolding is_empty
or_else a b = if is_empty a then b else a

unfoldable pub record_type : TemplateRecord → Bytes
record_type tr = to_upper (trim_space tr.typ)

unfoldable pub has_unclosed : TemplateRecord → Bool
unfolding is_unclosed
has_unclosed tr =
    any is_unclosed (tr.host ∷ tr.points_to ∷ tr.target ∷ tr.text ∷ tr.conflict_prefix ∷ [])

-- `none` where `resolveHostName` fails.
abbrev pub host_or_bad : Option Bytes → Processed Bytes
host_or_bad none = bad invalid_data
host_or_bad (some h) = good h

unfoldable pub is_too_long : Bytes → Bytes → Bool
unfolding is_apex
is_too_long host domain = not (is_apex host) && ltb 253 (length host + 1 + length domain)

unfoldable pub prepare : Request → TemplateRecord → Processed Fields
unfolding valid_record_type record_type has_unclosed process_substitute or_else resolve_host_name
    is_too_long resolve_points_to resolve_int
prepare q tr = do
  refuse_if (not (valid_record_type (record_type tr))) type_error
  refuse_if (has_unclosed tr) invalid_template
  host ← process_substitute tr.host q.vars
  points ← process_substitute (or_else tr.points_to tr.target) q.vars
  text ← process_substitute tr.text q.vars
  prefix ← process_substitute tr.conflict_prefix q.vars
  rules ← process_substitute (or_else tr.text tr.points_to) q.vars
  name ← host_or_bad (resolve_host_name host q.host q.domain)
  refuse_if (is_too_long name q.domain) invalid_data
  ttl ← resolve_int tr.ttl q.vars
  good (record {
    host = name;
    points_raw = or_else tr.points_to tr.target;
    points_sub = points;
    points_to = resolve_points_to points q.host q.domain;
    text = text;
    spf_rules = rules;
    protocol = to_lower (trim_prefix tr.protocol (codes "_"));
    ttl = ttl;
  })
