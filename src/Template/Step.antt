-- ===== src/Template/Step.antt =====
-- The loop of `ProcessRecords` over the resolved records: what each type deletes and adds.
pub mod Keeps
pub mod Placed
pub mod Balance
pub mod Exclusive
use dns_entree.Base.{
  ℕ, ℤ, Bool, true, false, ◌&&◌, ◌||◌, not, List, [], ◌∷◌, ◌++◌, Option, none, some, if◌then◌else◌,
  any, select, map,
}
use dns_entree.Text.{Bytes, codes, str_eq, has_prefix}
use dns_entree.Record.{Record}
use dns_entree.Template.Types.{Entry, TemplateRecord, Processed, good, bad}
use dns_entree.Template.Substitute.{Vars, process_substitute}
use dns_entree.Template.Names.{name_eq, is_child_of, at}
use dns_entree.Template.Keys.{record_key, remove_records}
use dns_entree.Template.Spfm.{Change, process_spfm}

pub record Plan : Type 0 where
  pub zone : List Record
  pub to_add : List Record
  pub to_delete : List Record

unfoldable pub has_type : Bytes → Record → Bool
has_type t r = str_eq r.typ t

-- `toDelete = append(toDelete, dels...)` and `zone = removeRecords(zone, dels)`.
unfoldable pub delete : List Record → Plan → Plan
unfolding remove_records
delete dels s = record s { zone = remove_records s.zone dels; to_delete = s.to_delete ++ dels }

-- `toAdd = append(toAdd, recs...)` and `zone = append(zone, recs...)`.
unfoldable pub add : List Record → Plan → Plan
add recs s = record s { zone = s.zone ++ recs; to_add = s.to_add ++ recs }

-- What a rule takes out of the zone.
unfoldable pub delete_where : (Record → Bool) → Plan → Plan
unfolding delete
delete_where p s = delete (select p s.zone) s

unfoldable pub replace : (Record → Bool) → Record → Plan → Plan
unfolding delete_where add
replace p rec s = add (rec ∷ []) (delete_where p s)

unfoldable pub add_if_missing : (Record → Bool) → Record → Plan → Plan
unfolding add
add_if_missing same rec s = if any same s.zone then s else add (rec ∷ []) s

module _ (name : Bytes) where
  unfoldable pub not_ns_here : Record → Bool
  unfolding has_type
  not_ns_here r = name_eq r.name name && not (has_type (codes "NS") r)

  unfoldable pub address_here : Record → Bool
  unfolding has_type
  address_here r =
      name_eq r.name name
      && (has_type (codes "A") r || (has_type (codes "AAAA") r || has_type (codes "CNAME") r))

  unfoldable pub type_here : Bytes → Record → Bool
  unfolding has_type
  type_here t r = name_eq r.name name && has_type t r

  unfoldable pub redirect_here : Record → Bool
  unfolding has_type
  redirect_here r =
      name_eq r.name name
      && (has_type (codes "A") r
          || (has_type (codes "AAAA") r
              || (has_type (codes "CNAME") r
                  || (has_type (codes "REDIR301") r || has_type (codes "REDIR302") r))))

  -- NS of the original zone at the name itself, and every other record at or below it.
  unfoldable pub delegated : List Bytes → Record → Bool
  unfolding has_type
  delegated original r =
      if has_type (codes "NS") r
      then name_eq r.name name && any (str_eq (record_key r)) original
      else name_eq r.name name || is_child_of r.name name

  unfoldable pub original_srv : List Bytes → Record → Bool
  unfolding has_type
  original_srv original r =
      name_eq r.name name && (has_type (codes "SRV") r && any (str_eq (record_key r)) original)

  -- The rule of a TXT conflict mode.
  unfoldable pub txt_conflict : Bytes → Bytes → Record → Bool
  unfolding type_here
  txt_conflict mode prefix r =
      if str_eq mode []
      then type_here (codes "CNAME") r
      else if str_eq mode (codes "All")
      then type_here (codes "TXT") r
      else if str_eq mode (codes "Prefix")
      then type_here (codes "TXT") r && has_prefix r.content prefix
      else false

unfoldable pub same_data : Record → Record → Bool
unfolding type_here
same_data rec r = type_here rec.name rec.typ r && str_eq r.content rec.content

-- `prefix, _ := processSubstitute(…)`: empty on an error.
unfoldable pub prefix_of : Processed Bytes → Bytes
prefix_of (good v) = v
prefix_of (bad e) = []

unfoldable pub apply_spfm : Record → Plan → Plan
unfolding delete add
apply_spfm rec s = let c = process_spfm s.zone rec in add c.adds (delete c.dels s)

unfoldable pub apply_txt : Vars → Entry → Plan → Plan
unfolding delete_where add_if_missing txt_conflict same_data prefix_of
apply_txt vars e s = add_if_missing (same_data e.rec) e.rec (
    delete_where
      (txt_conflict e.rec.name e.template.conflict_mode
        (prefix_of (process_substitute e.template.conflict_prefix vars)))
      s)

-- The rule of each record type, from the type, the vars of the request and the keys of the zone
-- before the loop.
unfoldable pub apply_typed : Bytes → Vars → List Bytes → Entry → Plan → Plan
unfolding add replace delete_where add_if_missing apply_spfm apply_txt not_ns_here address_here
    type_here redirect_here delegated original_srv same_data
apply_typed typ vars original e s =
    let r = e.rec in
    if str_eq typ (codes "SPFM")
    then apply_spfm r s
    else if str_eq typ (codes "CNAME")
    then replace (not_ns_here r.name) r s
    else if str_eq typ (codes "A") || str_eq typ (codes "AAAA")
    then replace (type_here r.name (codes "NS")) r (delete_where (address_here r.name) s)
    else if str_eq typ (codes "TXT")
    then apply_txt vars e s
    else if str_eq typ (codes "MX")
    then replace (type_here r.name (codes "MX")) r s
    else if str_eq typ (codes "NS")
    then replace (delegated r.name original) r s
    else if str_eq typ (codes "SRV")
    then replace (original_srv r.name original) r s
    else if str_eq typ (codes "REDIR301") || str_eq typ (codes "REDIR302")
    then replace (redirect_here r.name) r s
    else if str_eq typ (codes "APEXCNAME")
    then replace (not_ns_here at) r s
    else add_if_missing (same_data r) r s

unfoldable pub apply_entry : Vars → List Bytes → Entry → Plan → Plan
unfolding apply_typed
apply_entry vars original e s =
    if e.is_backing then add (e.rec ∷ []) s else apply_typed e.rec.typ vars original e s

unfoldable pub apply_entries : Vars → List Bytes → List Entry → Plan → Plan
unfolding apply_entry
apply_entries vars original [] s = s
apply_entries vars original (e ∷ es) s =
    apply_entries vars original es (apply_entry vars original e s)
