-- ===== src/Providers/Cloudflare/Laws.antt =====
-- providers/cloudflare/cloudflare.go, `GetRecords`: the priorities that are read.
use dns_entree.Base.{refl, List, [], ◌∷◌, map, All}
use dns_entree.Text.{Bytes}
use dns_entree.Record.Errors.{Result, ok, err}
use dns_entree.Providers.Priority.{NoPriority, ReadNoPriority}
use dns_entree.Providers.Cloudflare.{Client, CfRecord, from_cf, all_from_cf, list_in}

module _ {S : Type 0} (client : Client S) where
  from_cf-NoPriority : (rs : List CfRecord) → All NoPriority (map (from_cf client) rs)
  from_cf-NoPriority [] = tt
  from_cf-NoPriority (r ∷ rs) = (refl, from_cf-NoPriority rs)

  all_from_cf-NoPriority : (r : Result (List CfRecord)) → ReadNoPriority (all_from_cf client r)
  all_from_cf-NoPriority (err e) = tt
  all_from_cf-NoPriority (ok rs) = from_cf-NoPriority rs

  pub list_in-NoPriority :
      (typ : Bytes) (zone : Result Bytes) (s : S) → ReadNoPriority (list_in client typ zone s)
  unfolding list_in
  list_in-NoPriority typ (err e) s = tt
  list_in-NoPriority typ (ok zone) s = all_from_cf-NoPriority (client.list_records zone typ [] s)
