-- ===== src/Providers/Route53.antt =====
-- providers/route53/route53.go: records over the client of the service, whose first page is read.
-- An error keeps its cause, without the words that are put before it.
pub mod Zones
pub mod Laws
use dns_entree.Base.{
  ℕ, ℤ, Bool, not, List, [], ◌∷◌, ◌++◌, map, ◌==◌, ◌&&◌, ◌||◌, if◌then◌else◌, int_eq, Option, none,
  some, find?,
}
use dns_entree.Text.{Bytes, codes, str_eq, trim_suffix}
use dns_entree.Record.{Record, Provider, plain}
use dns_entree.Record.Errors.{Error, other, Result, ok, err, ◌>>=◌, ◌>>◌}
use dns_entree.Template.Names.{is_empty}
use Zones.{HostedZone, find_zone_id}

-- All the values of a name and type.
pub record RecordSet : Type 0 where
  pub name : Bytes
  pub typ : Bytes
  pub ttl : ℤ
  pub values : List Bytes

pub data SetChange : Type 0 where
  upsert_set delete_set : RecordSet → SetChange

pub record Client (S : Type 0) : Type 0 where
  pub list_zones_by_name : Bytes → S → Result (List HostedZone)
  pub list_record_sets : Bytes → S → Result (List RecordSet)
  pub change_record_sets : Bytes → SetChange → S → Result (Unit {0}) × S

abbrev pub quote : ℕ
quote = 34

-- `strings.Trim(s, "\"")`
unfoldable pub trim_quotes_left : Bytes → Bytes
trim_quotes_left [] = []
trim_quotes_left (c ∷ s) = if c == quote then trim_quotes_left s else c ∷ s

abbrev pub keep_front : ℕ → Bytes → Bytes
keep_front c [] = if c == quote then [] else c ∷ []
keep_front c (d ∷ s) = c ∷ d ∷ s

unfoldable pub trim_quotes_right : Bytes → Bytes
trim_quotes_right [] = []
trim_quotes_right (c ∷ s) = keep_front c (trim_quotes_right s)

unfoldable pub trim_quotes : Bytes → Bytes
unfolding trim_quotes_left trim_quotes_right
trim_quotes s = trim_quotes_right (trim_quotes_left s)

unfoldable pub in_quotes : Bytes → Bytes → Bytes
in_quotes typ content =
    if str_eq typ (codes "TXT") then quote ∷ (content ++ quote ∷ []) else content

unfoldable pub from_value : RecordSet → Bytes → Record
unfolding trim_quotes
from_value rrs value =
    let name = trim_suffix rrs.name (codes ".") in
    record (plain rrs.typ name (trim_quotes value) rrs.ttl) { id = name ++ b'|' ∷ rrs.typ }

unfoldable pub is_wanted : Bytes → RecordSet → Bool
is_wanted typ rrs = is_empty typ || str_eq rrs.typ typ

-- The empty type asks for the records of every type.
unfoldable pub all_records : Bytes → List RecordSet → List Record
unfolding from_value is_wanted is_empty
all_records typ [] = []
all_records typ (rrs ∷ sets) =
    let rest = all_records typ sets in
    if is_wanted typ rrs then map (from_value rrs) rrs.values ++ rest else rest

unfoldable pub to_set : Record → RecordSet
unfolding in_quotes
to_set r = record {
  name = r.name;
  typ = r.typ;
  ttl = if int_eq r.ttl (ℤ.pos 0) then ℤ.pos 300 else r.ttl;
  values = in_quotes r.typ r.content ∷ [];
}

abbrev pub with_first : ℕ → Option (Bytes × Bytes) → Option (Bytes × Bytes)
with_first c none = none
with_first c (some (name, typ)) = some (c ∷ name, typ)

-- What stands before and behind the first such byte.
unfoldable pub cut_byte : ℕ → Bytes → Option (Bytes × Bytes)
cut_byte sep [] = none
cut_byte sep (c ∷ s) =
    let rest = cut_byte sep s in if c == sep then some ([], s) else with_first c rest

abbrev pub or_invalid : Option (Bytes × Bytes) → Result (Bytes × Bytes)
or_invalid none = err (other (codes "invalid record ID format"))
or_invalid (some p) = ok p

-- The set of the first record of the name, with that one value.
unfoldable pub set_of : Bytes → Option Record → Result RecordSet
unfolding in_quotes
set_of typ none = err (other (codes "record not found"))
set_of typ (some r) =
    ok (record { name = r.name; typ = typ; ttl = r.ttl; values = in_quotes typ r.content ∷ [] })

module _ {S : Type 0} (client : Client S) where
  unfoldable pub find_zone : Bytes → S → Result Bytes
  unfolding find_zone_id
  find_zone domain s = client.list_zones_by_name domain s >>= find_zone_id domain

  unfoldable pub read_records : Bytes → Bytes → S → Result (List Record)
  unfolding find_zone all_records
  read_records domain typ s = do
    zone ← find_zone domain s
    sets ← client.list_record_sets zone s
    ok (all_records typ sets)

  unfoldable pub change_in : Result (Bytes × SetChange) → S → Result (Unit {0}) × S
  change_in (err e) s = (err e, s)
  change_in (ok (zone, change)) s = client.change_record_sets zone change s

  unfoldable pub set_record : Bytes → Record → S → Result (Unit {0}) × S
  unfolding change_in find_zone to_set
  set_record domain r s =
      change_in (find_zone domain s >>= λ zone. ok (zone, SetChange.upsert_set (to_set r))) s

  -- An id is the name and the type, with a bar between them.
  unfoldable pub deletion : Bytes → Bytes → S → Result (Bytes × SetChange)
  unfolding find_zone cut_byte read_records set_of
  deletion domain id s = do
    zone ← find_zone domain s
    parts ← or_invalid (cut_byte b'|' id)
    records ← read_records domain parts.1 s
    set ← set_of parts.1 (find? (λ r. str_eq r.name parts.0) records)
    ok (zone, SetChange.delete_set set)

  unfoldable pub route53 : Provider S
  unfolding read_records set_record change_in deletion
  route53 = record {
    get_records = λ domain typ s. (read_records domain typ s, s);
    set_record = set_record;
    delete_record = λ domain id s. change_in (deletion domain id s) s;
  }
