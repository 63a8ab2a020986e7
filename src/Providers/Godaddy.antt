-- ===== src/Providers/Godaddy.antt =====
-- providers/godaddy/godaddy.go: records over the client of the service. An error keeps its cause,
-- without the words that are put before it.
pub mod Http
pub mod Laws
use dns_entree.Base.{
  ℕ, ℤ, Bool, true, false, not, List, [], ◌∷◌, ◌++◌, map, ◌==◌, if◌then◌else◌, Option, none, some,
  leb,
}
use dns_entree.Text.{Bytes, codes, str_eq, has_suffix, trim_suffix}
use dns_entree.Record.{Record, Provider, plain}
use dns_entree.Record.Errors.{Error, other, Result, ok, err}
use dns_entree.Template.Names.{is_empty}
use dns_entree.Providers.Replace.{replace_first}
use dns_entree.Providers.Route53.{cut_byte}
use Http.{
  GodaddyRecord, HttpRequest, get_request, put_request, delete_request, Reply, Client, do_request,
}

abbrev api_error : Error
api_error = other (codes "godaddy api")

-- A record with the same data is replaced, else the new one goes to the end.
unfoldable pub merge_godaddy_records : List GodaddyRecord → GodaddyRecord → List GodaddyRecord
merge_godaddy_records existing new = replace_first (λ r. str_eq r.data_of new.data_of) existing new

unfoldable pub normalize_godaddy_name : Bytes → Bytes → Bytes
normalize_godaddy_name name domain =
    let short =
      if has_suffix name (b'.' ∷ domain) then trim_suffix name (b'.' ∷ domain) else name in
    if str_eq short domain then codes "@" else short

unfoldable pub full_name : Bytes → Bytes → Bytes
full_name domain name = if not (str_eq name (codes "@")) then name ++ b'.' ∷ domain else domain

unfoldable pub from_godaddy : Bytes → GodaddyRecord → Record
unfolding full_name
from_godaddy domain r = record (plain r.typ (full_name domain r.name) r.data_of r.ttl) {
  id = r.name ++ b'|' ∷ r.typ;
}

abbrev pub all_from_godaddy : Bytes → Result (List GodaddyRecord) → Result (List Record)
all_from_godaddy domain (err e) = err e
all_from_godaddy domain (ok rs) = ok (map (from_godaddy domain) rs)

-- The TTL is at least 600.
unfoldable pub minimum_ttl : ℤ → ℤ
minimum_ttl (ℤ.pos n) = if leb 600 n then ℤ.pos n else ℤ.pos 600
minimum_ttl (ℤ.negsuc n) = ℤ.pos 600

abbrev pub or_none : Result (List GodaddyRecord) → List GodaddyRecord
or_none (err e) = []
or_none (ok rs) = rs

abbrev pub listed_reply : Result Reply → Result (List GodaddyRecord)
listed_reply (err e) = err e
listed_reply (ok r) = if not (r.status == 200) then err api_error else r.body

abbrev pub written_reply : Result Reply → Result (Unit {0})
written_reply (err e) = err e
written_reply (ok r) = if leb 400 r.status then err api_error else ok tt

module _ {S : Type 0} (client : Client S) where
  unfoldable pub records_url : Bytes → Bytes
  records_url domain = client.base_url ++ codes "/domains/" ++ domain ++ codes "/records"

  unfoldable pub name_url : Bytes → Bytes → Bytes → Bytes
  unfolding records_url
  name_url domain typ name = records_url domain ++ b'/' ∷ typ ++ b'/' ∷ name

  unfoldable pub fetch_records : Bytes → S → Result (List GodaddyRecord) × S
  unfolding do_request
  fetch_records url s = let o = do_request client (get_request url) s in (listed_reply o.0, o.1)

  unfoldable pub write_request : HttpRequest → S → Result (Unit {0}) × S
  unfolding do_request
  write_request req s = let o = do_request client req s in (written_reply o.0, o.1)

  unfoldable pub get_records : Bytes → Bytes → S → Result (List Record) × S
  unfolding fetch_records records_url is_empty from_godaddy
  get_records domain typ s =
      let url =
        if not (is_empty typ) then records_url domain ++ b'/' ∷ typ else records_url domain in
      let o = fetch_records url s in (all_from_godaddy domain o.0, o.1)

  unfoldable pub to_godaddy : Bytes → Record → GodaddyRecord
  unfolding normalize_godaddy_name minimum_ttl
  to_godaddy domain r = record {
    typ = r.typ;
    name = normalize_godaddy_name r.name domain;
    data_of = r.content;
    ttl = minimum_ttl r.ttl;
  }

  -- A read that fails counts as no records.
  unfoldable pub set_record : Bytes → Record → S → Result (Unit {0}) × S
  unfolding fetch_records name_url write_request merge_godaddy_records to_godaddy
  set_record domain r s =
      let new = to_godaddy domain r in
      let url = name_url domain r.typ new.name in
      let o = fetch_records url s in
      write_request (put_request url (merge_godaddy_records (or_none o.0) new)) o.1

  unfoldable pub deletion_of : Bytes → Option (Bytes × Bytes) → S → Result (Unit {0}) × S
  unfolding write_request name_url
  deletion_of domain none s = (err (other (codes "invalid record ID")), s)
  deletion_of domain (some (name, typ)) s =
      write_request (delete_request (name_url domain typ name)) s

  unfoldable pub godaddy : Provider S
  unfolding get_records set_record deletion_of cut_byte
  godaddy = record {
    get_records = get_records;
    set_record = set_record;
    delete_record = λ domain id s. deletion_of domain (cut_byte b'|' id) s;
  }
