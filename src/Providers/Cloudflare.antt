-- ===== src/Providers/Cloudflare.antt =====
-- providers/cloudflare/cloudflare.go: records over the client of the service.
pub mod Laws
pub mod Nearest
use dns_entree.Base.{ℕ, ℤ, Bool, ◌&&◌, not, List, [], ◌∷◌, map, ◌==◌, if◌then◌else◌, int_eq}
use dns_entree.Text.{Bytes, codes}
use dns_entree.Record.{Record, Provider, plain}
use dns_entree.Record.Errors.{Error, other, Result, ok, err}
use dns_entree.Template.Names.{is_empty}

-- A record of the service, as far as the back end reads and writes it.
pub record CfRecord : Type 0 where
  pub id : Bytes
  pub typ : Bytes
  pub name : Bytes
  pub content : Bytes
  pub ttl : ℤ

-- The client of the service: an empty name lists the records of every name.
pub record Client (S : Type 0) : Type 0 where
  pub zone_id_by_name : Bytes → S → Result Bytes
  pub list_records : (zone typ name : Bytes) → S → Result (List CfRecord)
  pub update_record : (zone : Bytes) → CfRecord → S → Result (Unit {0}) × S
  pub create_record : (zone : Bytes) → CfRecord → S → Result (Unit {0}) × S
  pub delete_record : (zone id : Bytes) → S → Result (Unit {0}) × S

module _ {S : Type 0} (client : Client S) where
  abbrev pub first_ok : Result Bytes → Result Bytes → Result Bytes
  first_ok (ok id) rest = ok id
  first_ok (err e) rest = rest

  -- The parents of a name: what stands behind each of its dots, but for one at its end.
  unfoldable pub try_parents : Bytes → S → Result Bytes
  unfolding is_empty
  try_parents [] s = err (other (codes "zone lookup"))
  try_parents (c ∷ name) s =
      let rest = try_parents name s in
      if (c == b'.') && not (is_empty name)
      then first_ok (client.zone_id_by_name name s) rest
      else rest

  unfoldable pub resolve_zone_id : Bytes → S → Result Bytes
  unfolding try_parents
  resolve_zone_id domain s = first_ok (client.zone_id_by_name domain s) (try_parents domain s)

  abbrev pub from_cf : CfRecord → Record
  from_cf r = record (plain r.typ r.name r.content r.ttl) { id = r.id }

  abbrev pub all_from_cf : Result (List CfRecord) → Result (List Record)
  all_from_cf (err e) = err e
  all_from_cf (ok rs) = ok (map from_cf rs)

  unfoldable pub list_in : Bytes → Result Bytes → S → Result (List Record)
  list_in typ (err e) s = err e
  list_in typ (ok zone) s = all_from_cf (client.list_records zone typ [] s)

  -- Only id, type, name, content and TTL are read.
  unfoldable pub get_records : Bytes → Bytes → S → Result (List Record) × S
  unfolding list_in resolve_zone_id
  get_records domain typ s = (list_in typ (resolve_zone_id domain s) s, s)

  -- A TTL of 1 is the automatic one.
  unfoldable pub to_cf : Bytes → Record → CfRecord
  to_cf id r = record {
    id = id;
    typ = r.typ;
    name = r.name;
    content = r.content;
    ttl = if int_eq r.ttl (ℤ.pos 0) then ℤ.pos 1 else r.ttl;
  }

  -- The first record of the type and name is updated, else one is created.
  unfoldable pub upsert : Bytes → Record → Result (List CfRecord) → S → Result (Unit {0}) × S
  unfolding to_cf
  upsert zone r (err e) s = (err e, s)
  upsert zone r (ok []) s = client.create_record zone (to_cf [] r) s
  upsert zone r (ok (x ∷ xs)) s = client.update_record zone (to_cf x.id r) s

  unfoldable pub set_in : Record → Result Bytes → S → Result (Unit {0}) × S
  unfolding upsert
  set_in r (err e) s = (err e, s)
  set_in r (ok zone) s = upsert zone r (client.list_records zone r.typ r.name s) s

  unfoldable pub delete_in : Bytes → Result Bytes → S → Result (Unit {0}) × S
  delete_in id (err e) s = (err e, s)
  delete_in id (ok zone) s = client.delete_record zone id s

  unfoldable pub cloudflare : Provider S
  unfolding get_records set_in delete_in resolve_zone_id
  cloudflare = record {
    get_records = get_records;
    set_record = λ domain r s. set_in r (resolve_zone_id domain s) s;
    delete_record = λ domain id s. delete_in id (resolve_zone_id domain s) s;
  }
