-- ===== src/Template/Tests.antt =====
-- Runs of the template engine, and its theorems at concrete templates and zones.
use dns_entree.Base.{
  ℤ, ◌≡◌, refl, inl, false, ◌||◌, List, [], ◌∷◌, map, Option, none, some, All, arith,
}
use dns_entree.Text.{Bytes, codes, str_eq, to_lower, to_upper, Lacks}
use dns_entree.Record.{Record, plain}
use dns_entree.Template.Substitute.Decode.{unmarshal_json}
use dns_entree.Record.Errors.{ok}
use dns_entree.Template.Types.{FlexInt, TemplateRecord, Entry, good, bad, missing_parameter}
use dns_entree.Template.Substitute.{process_substitute}
use dns_entree.Template.Substitute.Tokens.{pieces}
use dns_entree.Template.Substitute.Reads.{Substituted}
use dns_entree.Template.Substitute.Laws.{render, render-pieces, process_substitute-Substituted}
use dns_entree.Template.Keys.{record_key, deduplicate, normalize_record}
use dns_entree.Template.Keys.Counts.{count}
use dns_entree.Template.Keys.Dedup.{count-deduplicate}
use dns_entree.Template.Keys.Fields.{IsPlain, record_key-type_name}
use dns_entree.Template.Spfm.{merge_rules, merge_rules-repeats_version}
use dns_entree.Template.Step.{Plan, not_ns_here, type_here, address_here, apply_entry}
use dns_entree.Template.Step.Balance.{IsBalanced}
use dns_entree.Template.Step.Exclusive.{Alone, cname-Alone, mx-Alone, ip_address, entry-Alone}
use dns_entree.Template.Conflicts.{check_internal_conflicts, cascades}
use dns_entree.Template.Conflicts.Laws.{AllClear, check_internal_conflicts-AllClear}
use dns_entree.Template.Entries.{Request, record_type}
use dns_entree.Template.Entries.Build.{UrlParser}
use dns_entree.Template.Entries.Switch.{entries_of}
use dns_entree.Template.Entries.Yields.{Yields}
use dns_entree.Template.Entries.Kinds.{IsKind}
use dns_entree.Template.Entries.Laws.{entries_of-IsKind}
use dns_entree.Template.Signature.{Crypto}
use dns_entree.Template.Process.{
  ProcessOpts, ProcessResult, plan_of, process_checked, process_records,
}
use dns_entree.Template.Process.Account.{plan_of-IsBalanced}
use dns_entree.Template.Process.Result.{
  IsBooked, process_checked-IsBooked, IsSigned, process_records-IsSigned,
}

abbrev hour : FlexInt
hour = record { value = ℤ.pos 3600; raw = [] }

abbrev blank : TemplateRecord
blank = record {
  typ = [];
  host = [];
  points_to = [];
  target = [];
  text = [];
  ttl = hour;
  group_id = [];
  essential = [];
  conflict_mode = [];
  conflict_prefix = [];
  priority = hour;
  weight = hour;
  port = hour;
  service = [];
  protocol = [];
}

abbrev address : TemplateRecord
address = record blank { typ = codes "a"; host = codes "www"; points_to = codes "%ip%" }

abbrev web : Record
web = plain (codes "A") (codes "www") (codes "1.2.3.4") (ℤ.pos 3600)

abbrev old_web : Record
old_web = plain (codes "CNAME") (codes "www") (codes "b.example") (ℤ.pos 300)

abbrev no_urls : UrlParser
no_urls s = none

abbrev opts : ProcessOpts
opts = record {
  domain = codes "a.example";
  host = [];
  zone_records = old_web ∷ [];
  template_records = address ∷ [];
  variables = (codes "ip", codes "1.2.3.4") ∷ [];
  group_ids = [];
  multi_aware = false;
  multi_instance = false;
  provider_id = [];
  service_id = [];
  unique_id = [];
  redirect_records = [];
  ignore_signature = false;
  signature = codes "c2ln";
  signing_key = codes "_dck1";
  query_string = codes "domain=a.example";
  sync_pub_key_domain = codes "keys.example";
}

abbrev outcome : ProcessResult
outcome = record { to_add = web ∷ []; to_delete = old_web ∷ [] }

checked_run : process_checked no_urls [] opts ≡ good outcome
unfolding process_checked dns_entree.Text.has_prefix to_upper dns_entree.Text.trim_space str_eq
    dns_entree.Text.has_suffix to_lower dns_entree.Text.contains_any dns_entree.Text.split
    dns_entree.Text.contains dns_entree.Template.Names.name_eq record_key
checked_run = refl

process_checked-IsBooked_example : IsBooked no_urls opts outcome
process_checked-IsBooked_example = process_checked-IsBooked no_urls [] opts outcome checked_run

abbrev web_entry : Entry
web_entry = record { rec = web; template = address; is_backing = false }

plan_of-IsBalanced_example :
    IsBalanced (map normalize_record (old_web ∷ [])) (plan_of opts [] (web_entry ∷ []))
plan_of-IsBalanced_example = plan_of-IsBalanced opts [] (web_entry ∷ [])

-- Keys are their texts, and a signature is right where it is the hash.
abbrev trivial : Crypto Bytes
trivial = record {
  decode_base64 = some;
  parse_key = some;
  sum256 = λ s. codes "c2ln";
  verify = λ k h s. str_eq h s;
}

abbrev key_texts : Bytes → Option (List Bytes)
key_texts name = some (codes "p=2,a=RS256,d=cd" ∷ codes "p=1,a=RS256,d=ab" ∷ [])

signed_run : process_records trivial key_texts no_urls [] opts ≡ good outcome
unfolding process_records dns_entree.Text.trim_space dns_entree.Text.has_prefix
    dns_entree.Text.trim_prefix str_eq to_upper dns_entree.Text.has_suffix to_lower
    dns_entree.Text.contains_any dns_entree.Text.split dns_entree.Text.contains
    dns_entree.Template.Names.name_eq record_key
signed_run = refl

process_records-IsSigned_example : IsSigned trivial key_texts opts
unfolding dns_entree.Template.Names.is_empty
process_records-IsSigned_example =
    process_records-IsSigned trivial key_texts no_urls [] opts outcome refl signed_run

clear_run : check_internal_conflicts (web_entry ∷ []) ≡ good tt
unfolding check_internal_conflicts str_eq
clear_run = refl

check_internal_conflicts-AllClear_example :
    AllClear (web_entry ∷ []) × All (λ e. cascades (web_entry ∷ []) e ≡ false) (web_entry ∷ [])
check_internal_conflicts-AllClear_example =
    check_internal_conflicts-AllClear (web_entry ∷ []) clear_run

abbrev request : Request
request = record {
  domain = codes "a.example";
  host = [];
  vars = (codes "ip", codes "1.2.3.4") ∷ [];
  redirects = [];
}

entries_of_case : Yields (IsKind (record_type address)) (entries_of no_urls request address)
entries_of_case = entries_of-IsKind no_urls request address

abbrev before_web : Plan
before_web = record { zone = old_web ∷ []; to_add = []; to_delete = [] }

old_web-IsPlain : IsPlain old_web
unfolding to_upper
old_web-IsPlain = record { upper = refl; typ_bar = ground arith; name_bar = ground arith }

entry-Alone_example :
    Alone
      (λ r. address_here (codes "www") r || type_here (codes "www") (codes "NS") r)
      web
      before_web
      (apply_entry [] [] web_entry before_web)
entry-Alone_example =
    entry-Alone web_entry _ (ip_address (inl refl)) [] [] before_web (old_web-IsPlain, tt) refl

abbrev alias_entry : Entry
alias_entry = record web_entry { rec = old_web }

alias-Alone :
    Alone (not_ns_here (codes "www")) old_web before_web (apply_entry [] [] alias_entry before_web)
alias-Alone = cname-Alone [] [] alias_entry before_web (old_web-IsPlain, tt) refl refl

abbrev mail : Record
mail = record (plain (codes "MX") (codes "www") (codes "mail.example") (ℤ.pos 0)) {
  priority = ℤ.pos 10;
}

exchange-Alone :
    Alone
      (type_here (codes "www") (codes "MX"))
      mail
      before_web
      (apply_entry [] [] (record web_entry { rec = mail }) before_web)
exchange-Alone =
    mx-Alone [] [] (record web_entry { rec = mail }) before_web (old_web-IsPlain, tt) refl refl

same_type_name : (old_web.typ ≡ old_web.typ) × (to_lower old_web.name ≡ to_lower old_web.name)
same_type_name = record_key-type_name old_web old_web old_web-IsPlain old_web-IsPlain refl

counted_once : count (record_key web) (deduplicate (web ∷ old_web ∷ web ∷ [])) ≡ 1
unfolding record_key str_eq to_upper to_lower
counted_once = count-deduplicate (record_key web) (web ∷ old_web ∷ web ∷ [])

rendered : render (pieces (codes "a-%ip%")) ≡ codes "a-%ip%"
rendered = render-pieces (codes "a-%ip%")

abbrev ip_given : List (Bytes × Bytes)
ip_given = (codes "ip", codes "1.2.3.4") ∷ []

process_substitute-Substituted_example :
    Substituted ip_given (codes "a-%ip%-50%") (process_substitute (codes "a-%ip%-50%") ip_given)
process_substitute-Substituted_example =
    process_substitute-Substituted (codes "a-%ip%-50%") ip_given

given_run : process_substitute (codes "a-%ip%-50%") ip_given ≡ good (codes "a-1.2.3.4-50%")
unfolding process_substitute str_eq
given_run = refl

missing_run : process_substitute (codes "a-%ip%") [] ≡ bad (missing_parameter (codes "ip"))
unfolding process_substitute
missing_run = refl

version_twice :
    merge_rules (codes "v=spf1 -all") (codes "include:b.example")
    ≡ codes "v=spf1 include:b.example v=spf1 -all"
version_twice = merge_rules-repeats_version (codes "include:b.example")

-- A quoted number is decoded as the number, with what follows it left unread.
decode_run :
    (unmarshal_json (codes "\"10 minutes\"") ≡ ok (record { value = ℤ.pos 10; raw = [] }))
    × (unmarshal_json (codes "\"%p%\"") ≡ ok (record { value = ℤ.pos 0; raw = codes "%p%" }))
unfolding unmarshal_json str_eq dns_entree.Text.contains
decode_run = (refl, refl)
