-- ===== src/Template/Process.antt =====
-- `ProcessRecords`: what a request adds to a zone and deletes from it.
pub mod Result
pub mod Placed
pub mod Account
use dns_entree.Base.{
  ℕ, ℤ, Bool, true, false, ◌&&◌, ◌||◌, not, List, [], ◌∷◌, ◌++◌, map, Option, none, some,
  if◌then◌else◌, any, select, find?, length, ltb,
}
use dns_entree.Text.{Bytes, codes, str_eq, to_lower, to_upper}
use dns_entree.Record.{Record, Instance}
use dns_entree.Template.Types.{
  TemplateRecord, Entry, ProcessError, invalid_data, Processed, good, bad, ◌>>=◌, ◌>>◌, refuse_if,
}
use dns_entree.Template.Substitute.{Vars}
use dns_entree.Template.Names.{is_empty, dot, has_caller, name_eq}
use dns_entree.Template.Keys.{record_key, remove_records, deduplicate, normalize_record}
use dns_entree.Template.Step.{Plan, has_type, delete, apply_entries}
use dns_entree.Template.Conflicts.{check_internal_conflicts}
use dns_entree.Template.Entries.{Request, or_else}
use dns_entree.Template.Entries.Build.{UrlParser}
use dns_entree.Template.Signature.{Crypto, verify_signature}
use dns_entree.Template.Entries.Switch.{resolve_entries}

pub record ProcessOpts : Type 0 where
  pub domain : Bytes
  pub host : Bytes
  pub zone_records : List Record
  pub template_records : List TemplateRecord
  pub variables : Vars
  pub group_ids : List Bytes
  pub multi_aware : Bool
  pub multi_instance : Bool
  pub provider_id : Bytes
  pub service_id : Bytes
  pub unique_id : Bytes
  pub redirect_records : List TemplateRecord
  pub ignore_signature : Bool
  pub signature : Bytes
  pub signing_key : Bytes
  pub query_string : Bytes
  pub sync_pub_key_domain : Bytes

pub record ProcessResult : Type 0 where
  pub to_add : List Record
  pub to_delete : List Record

-- The implicit variables hide those of the caller.
unfoldable pub all_vars : ProcessOpts → Vars
unfolding has_caller
all_vars o =
    let domain = to_lower o.domain in
    (codes "fqdn", if has_caller o.host then o.host ++ (dot ++ domain) else domain)
    ∷ (codes "host", o.host)
    ∷ (codes "domain", domain)
    ∷ o.variables

unfoldable pub request_of : ProcessOpts → Request
unfolding all_vars
request_of o = record {
  domain = to_lower o.domain;
  host = o.host;
  vars = all_vars o;
  redirects = o.redirect_records;
}

unfoldable pub in_groups : List Bytes → TemplateRecord → Bool
unfolding is_empty
in_groups groups tr = not (is_empty tr.group_id) && any (str_eq tr.group_id) groups

unfoldable pub no_groups : List Bytes → Bool
no_groups [] = true
no_groups (g ∷ gs) = false

unfoldable pub chosen : ProcessOpts → List TemplateRecord
unfolding in_groups no_groups
chosen o =
    if no_groups o.group_ids
    then o.template_records
    else select (in_groups o.group_ids) o.template_records

unfoldable pub is_apex_cname : Entry → Bool
unfolding has_type
is_apex_cname e = has_type (codes "APEXCNAME") e.rec

module _ (o : ProcessOpts) (uid : Bytes) where
  abbrev same_provider : Instance → Bool
  same_provider i = str_eq i.provider_id o.provider_id

  abbrev same_service : Instance → Bool
  same_service i = same_provider i && str_eq i.service_id o.service_id

  -- A record that the earlier run of this provider owns and that the new run replaces.
  unfoldable pub is_owned : Option Instance → Bool
  is_owned none = false
  is_owned (some i) =
      if o.multi_instance
      then same_service i && str_eq i.id uid
      else same_service i || same_provider i

  -- Deleted for now: an `Always` record of another service of the provider.
  unfoldable pub is_candidate : Option Instance → Bool
  is_candidate none = false
  is_candidate (some i) =
      not o.multi_instance
      && (not (same_service i) && (same_provider i && str_eq i.essential (codes "Always")))

  unfoldable pub start_plan : List Record → Plan
  unfolding is_owned delete
  start_plan zone =
      let untouched : Plan = record { zone = zone; to_add = []; to_delete = [] } in
      if o.multi_aware then delete (select (λ r. is_owned r.dc) zone) untouched else untouched

  unfoldable pub candidates : List Record → List Record
  unfolding is_candidate
  candidates zone = if o.multi_aware then select (λ r. is_candidate r.dc) zone else []

  unfoldable pub essential_of : List Entry → Record → Bytes
  essential_of [] r = []
  essential_of (e ∷ es) r =
      if str_eq (record_key e.rec) (record_key r) then e.template.essential else essential_of es r

  unfoldable pub stamp : List Entry → Record → Record
  unfolding essential_of or_else
  stamp es r = record r {
    dc = some (record {
      id = uid;
      provider_id = o.provider_id;
      service_id = o.service_id;
      host = o.host;
      essential = or_else (essential_of es r) (codes "Always");
    });
  }

  -- Deduplication and the `_dc` stamp.
  unfoldable pub finish : List Entry → Plan → ProcessResult
  unfolding deduplicate stamp
  finish es s = record {
    to_add = if o.multi_aware then map (stamp es) (deduplicate s.to_add) else deduplicate s.to_add;
    to_delete = deduplicate s.to_delete;
  }

unfoldable pub clashes_with : Record → Record → Bool
clashes_with kept added =
    str_eq (to_upper added.typ) (to_upper kept.typ) && name_eq added.name kept.name

unfoldable pub any_clash : List Record → List Record → Bool
unfolding clashes_with
any_clash kept added = any (λ r. any (clashes_with r) added) kept

unfoldable pub restore_all : List Record → Plan → Plan
unfolding remove_records
restore_all [] s = s
restore_all (r ∷ rs) s =
    restore_all rs
      (record s { zone = s.zone ++ (r ∷ []); to_delete = remove_records s.to_delete (r ∷ []) })

-- All of the `Always` records come back, or none where one of them clashes with an added record.
unfoldable pub restore : List Record → Plan → Plan
unfolding any_clash restore_all
restore kept s = if any_clash kept s.to_add then s else restore_all kept s

-- `random_id` is the id that is drawn where the request is multi-aware and brings none.
unfoldable pub run_id : ProcessOpts → Bytes → Bytes
unfolding is_empty
run_id o random_id = if o.multi_aware && is_empty o.unique_id then random_id else o.unique_id

-- The zone after the request, with what was added and deleted on the way.
unfoldable pub plan_of : ProcessOpts → Bytes → List Entry → Plan
unfolding all_vars start_plan candidates restore apply_entries
plan_of o uid es =
    let zone = map normalize_record o.zone_records in
    let s = start_plan o uid zone in
    restore (candidates o uid zone) (apply_entries (all_vars o) (map record_key s.zone) es s)

-- What stands behind the signature check.
unfoldable pub process_checked : UrlParser → Bytes → ProcessOpts → Processed ProcessResult
unfolding request_of chosen is_apex_cname finish plan_of run_id resolve_entries
    check_internal_conflicts
process_checked parse_url random_id o = do
  es ← resolve_entries parse_url (request_of o) (chosen o)
  done ← check_internal_conflicts es
  refuse_if (ltb 1 (length (select is_apex_cname es))) invalid_data
  let uid = run_id o random_id
  good (finish o uid es (plan_of o uid es))

module _ {K : Type 0} (c : Crypto K) (lookup : Bytes → Option (List Bytes)) where
  unfoldable pub check_signature : ProcessOpts → Processed (Unit {0})
  unfolding is_empty verify_signature
  check_signature o =
      if not (is_empty o.signature) && not o.ignore_signature
      then verify_signature c o.query_string o.signature o.signing_key o.sync_pub_key_domain lookup
      else good tt

  unfoldable pub process_records : UrlParser → Bytes → ProcessOpts → Processed ProcessResult
  unfolding check_signature process_checked
  process_records parse_url random_id o = do
    done ← check_signature o
    process_checked parse_url random_id o
