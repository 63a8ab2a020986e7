-- ===== src/Providers/Godaddy/Laws.antt =====
-- providers/godaddy/godaddy.go: the siblings of a write, and the priorities that are read.
use dns_entree.Base.{◌≡◌, refl, Bool, List, [], ◌∷◌, map, find?, some, All}
use dns_entree.Text.{Bytes, str_eq, str_eq_refl}
use dns_entree.Record.Errors.{Result, ok, err}
use dns_entree.Providers.Priority.{NoPriority, ReadNoPriority}
use dns_entree.Providers.Replace.{
  others, replace_first-others, find?-replace_first, replace_first_twice,
}
use dns_entree.Providers.Godaddy.Http.{GodaddyRecord, Client}
use dns_entree.Providers.Godaddy.{
  merge_godaddy_records, from_godaddy, all_from_godaddy, get_records,
}

abbrev pub same_data : GodaddyRecord → GodaddyRecord → Bool
same_data new r = str_eq r.data_of new.data_of

pub merge_godaddy_records_lem :
    (rs : List GodaddyRecord) (new : GodaddyRecord)
    → let merged = merge_godaddy_records rs new in
      (others (same_data new) merged ≡ others (same_data new) rs)
      × (find? (same_data new) merged ≡ some new)
      × (merge_godaddy_records merged new ≡ merged)
unfolding merge_godaddy_records
merge_godaddy_records_lem rs new = (
  replace_first-others (same_data new) new (str_eq_refl new.data_of) rs,
  find?-replace_first (same_data new) new (str_eq_refl new.data_of) rs,
  replace_first_twice (same_data new) new (str_eq_refl new.data_of) rs,
)

all_from_godaddy-NoPriority :
    (domain : Bytes) (r : Result (List GodaddyRecord)) → ReadNoPriority (all_from_godaddy domain r)
unfolding from_godaddy
all_from_godaddy-NoPriority domain (err e) = tt
all_from_godaddy-NoPriority domain (ok rs) = each rs
  where
    each : (rs : List GodaddyRecord) → All NoPriority (map (from_godaddy domain) rs)
    each [] = tt
    each (r ∷ rs) = (refl, each rs)

module _ {S : Type 0} (client : Client S) where
  pub get_records-NoPriority :
      (domain typ : Bytes) (s : S) → ReadNoPriority (get_records client domain typ s).0
  unfolding get_records from_godaddy
  get_records-NoPriority domain typ s = all_from_godaddy-NoPriority domain _
