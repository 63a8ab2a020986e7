-- ===== src/Providers/Namecheap/Laws.antt =====
-- providers/namecheap/namecheap.go, `mergeRecord`: the hosts of a domain after a write.
use dns_entree.Base.{◌≡◌, true, List, find?, some}
use dns_entree.Text.{Bytes, str_eq_refl, to_lower}
use dns_entree.Record.{Record}
use dns_entree.Migrate.Target.{equal_fold}
use dns_entree.Providers.Replace.{
  others, replace_first-others, find?-replace_first, replace_first_twice,
}
use dns_entree.Providers.Namecheap.{Host, new_host, same_place, merge_record}

own_place : (h : Host) → same_place h h ≡ true
unfolding same_place equal_fold
own_place h = rw (str_eq_refl (to_lower h.name), str_eq_refl (to_lower h.typ))

-- The other hosts stay as they are, the new one is the first of its place, and merging again
-- changes nothing.
pub merge_record_lem :
    (hosts : List Host) (r : Record) (domain : Bytes)
    → let new = new_host r domain in
      let merged = merge_record hosts r domain in
      (others (same_place new) merged ≡ others (same_place new) hosts)
      × (find? (same_place new) merged ≡ some new)
      × (merge_record merged r domain ≡ merged)
unfolding merge_record
merge_record_lem hosts r domain = (
  replace_first-others (same_place new) new (own_place new) hosts,
  find?-replace_first (same_place new) new (own_place new) hosts,
  replace_first_twice (same_place new) new (own_place new) hosts,
)
  where
    new : Host
    new = new_host r domain
