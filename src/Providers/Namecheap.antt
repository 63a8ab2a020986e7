-- ===== src/Providers/Namecheap.antt =====
-- providers/namecheap/namecheap.go: records over a client that reads and writes all hosts at once.
-- Of a host, the fields that are read or sent. An error keeps no message of the service.
pub mod Laws
use dns_entree.Base.{
  ℕ, ℤ, Bool, true, false, not, List, [], ◌∷◌, ◌++◌, map, length, ◌^◌, ◌-◌, zero, suc, ◌==◌, ◌&&◌,
  ◌||◌, if◌then◌else◌, int_eq, Option, none, some,
}
use dns_entree.Text.{Bytes, codes, str_eq, has_suffix, trim_suffix, to_lower, to_upper, trim_space}
use dns_entree.Record.{Record, Provider, plain}
use dns_entree.Record.Errors.{Error, other, Result, ok, err, ◌>>=◌}
use dns_entree.Template.Names.{is_empty}
use dns_entree.Template.Signature.{atoi, is_number}
use dns_entree.Template.Keys.Decimal.{decimal}
use dns_entree.Migrate.Target.{equal_fold}
use dns_entree.Providers.Replace.{replace_first}
use dns_entree.Providers.Route53.{cut_byte}

pub record Host : Type 0 where
  pub host_id : Bytes
  pub name : Bytes
  pub typ : Bytes
  pub address : Bytes
  pub mx_pref : Bytes
  pub ttl : Bytes

-- The envelope of a reply, with the hosts of `getHosts`.
pub record Reply : Type 0 where
  pub status : Bytes
  pub hosts : List Host

-- `doXML` of the two commands, with the second-level and the top-level name.
pub record Client (S : Type 0) : Type 0 where
  pub get_call : (sld tld : Bytes) → S → Result Reply × S
  pub set_call : (sld tld : Bytes) → List Host → S → Result Reply × S

abbrev pub of_cut : Option (Bytes × Bytes) → Result (Bytes × Bytes)
of_cut none = err (other (codes "namecheap: not a full domain"))
of_cut (some p) = ok p

unfoldable pub split_domain : Bytes → Result (Bytes × Bytes)
unfolding is_empty cut_byte
split_domain domain =
    let d = trim_suffix (to_lower (trim_space domain)) (codes ".") in
    if is_empty d then err (other (codes "namecheap: empty domain")) else of_cut (cut_byte b'.' d)

unfoldable pub host_name_for : Bytes → Bytes → Bytes
unfolding is_empty
host_name_for record_name domain =
    let name = trim_suffix (to_lower record_name) (codes ".") in
    let zone = trim_suffix (to_lower domain) (codes ".") in
    if is_empty name || str_eq name zone
    then codes "@"
    else if has_suffix name (b'.' ∷ zone)
    then trim_suffix name (b'.' ∷ zone)
    else name

abbrev pub nearest_int : Bytes → ℤ
nearest_int [] = ℤ.pos 0
nearest_int (c ∷ s) = if c == b'-' then ℤ.negsuc (2 ^ 63 - 1) else ℤ.pos (2 ^ 63 - 1)

-- The value that `Atoi` returns beside its error, too: the nearest one to a number out of range.
unfoldable pub atoi_value : Bytes → ℤ
unfolding atoi is_number
atoi_value s = elim (atoi s) [ some n ↦ n | none ↦ if is_number s then nearest_int s else ℤ.pos 0 ]

unfoldable pub host_to_record : Host → Bytes → Record
unfolding atoi_value
host_to_record h domain =
    let name =
      if str_eq h.name (codes "@")
      then domain
      else if not (has_suffix h.name (b'.' ∷ domain))
      then h.name ++ b'.' ∷ domain
      else h.name in
    record (plain (to_upper h.typ) name h.address (atoi_value h.ttl)) {
      id = h.host_id;
      priority = atoi_value h.mx_pref;
    }

abbrev pub is_positive : ℤ → Bool
is_positive (ℤ.pos zero) = false
is_positive (ℤ.pos (suc n)) = true
is_positive (ℤ.negsuc n) = false

unfoldable pub new_host : Record → Bytes → Host
unfolding host_name_for decimal
new_host r domain = record {
  host_id = [];
  name = host_name_for r.name domain;
  typ = to_upper r.typ;
  address = r.content;
  mx_pref = if is_positive r.priority then decimal r.priority else codes "10";
  ttl = if int_eq r.ttl (ℤ.pos 0) then codes "1800" else decimal r.ttl;
}

unfoldable pub same_place : Host → Host → Bool
unfolding equal_fold
same_place new h = equal_fold h.name new.name && equal_fold h.typ new.typ

-- The first host of the name and type is replaced, else the new one goes to the end.
unfoldable pub merge_record : List Host → Record → Bytes → List Host
unfolding new_host same_place
merge_record hosts r domain =
    let new = new_host r domain in replace_first (same_place new) hosts new

unfoldable pub merge_all : List Host → List Record → Bytes → List Host
unfolding merge_record
merge_all hosts [] domain = hosts
merge_all hosts (r ∷ rs) domain = merge_all (merge_record hosts r domain) rs domain

unfoldable pub is_ok : Reply → Bool
unfolding equal_fold
is_ok r = equal_fold r.status (codes "OK")

abbrev pub api_error : Error
api_error = other (codes "namecheap")

unfoldable pub hosts_in : Result Reply → Result (List Host)
unfolding is_ok
hosts_in (err e) = err e
hosts_in (ok r) = if is_ok r then ok r.hosts else err api_error

unfoldable pub written_in : Result Reply → Result (Unit {0})
unfolding is_ok
written_in (err e) = err e
written_in (ok r) = if is_ok r then ok tt else err api_error

unfoldable pub of_type : Bytes → List Host → List Host
unfolding is_empty equal_fold
of_type typ [] = []
of_type typ (h ∷ hs) =
    let rest = of_type typ hs in
    if not (is_empty typ) && not (equal_fold h.typ typ) then rest else h ∷ rest

-- The hosts with another id.
unfoldable pub without : Bytes → List Host → List Host
without id [] = []
without id (h ∷ hs) =
    let rest = without id hs in if not (str_eq h.host_id id) then h ∷ rest else rest

unfoldable pub kept_hosts : Bytes → List Host → Result (List Host)
unfolding without
kept_hosts id hosts =
    let kept = without id hosts in
    if length kept == length hosts then err (other (codes "not found")) else ok kept

module _ {S : Type 0} (client : Client S) where
  unfoldable pub get_hosts : Bytes → S → Result (List Host) × S
  unfolding split_domain hosts_in
  get_hosts domain s = elim (split_domain domain) [
    | err e ↦ (err e, s)
    | ok p ↦ let o = client.get_call p.0 p.1 s in (hosts_in o.0, o.1)
  ]

  unfoldable pub set_hosts : Bytes → List Host → S → Result (Unit {0}) × S
  unfolding split_domain written_in
  set_hosts domain hosts s = elim (split_domain domain) [
    | err e ↦ (err e, s)
    | ok p ↦ let o = client.set_call p.0 p.1 hosts s in (written_in o.0, o.1)
  ]

  -- The hosts are read, changed and written back, all of them.
  unfoldable pub rewrite_hosts :
      Bytes → (List Host → Result (List Host)) → S → Result (Unit {0}) × S
  unfolding get_hosts set_hosts
  rewrite_hosts domain change s =
      let o = get_hosts domain s in
      elim (o.0 >>= change) [ err e ↦ (err e, o.1) | ok hosts ↦ set_hosts domain hosts o.1 ]

  unfoldable pub get_records : Bytes → Bytes → S → Result (List Record) × S
  unfolding get_hosts host_to_record of_type
  get_records domain typ s =
      let o = get_hosts domain s in
      (o.0 >>= λ hosts. ok (map (λ h. host_to_record h domain) (of_type typ hosts)), o.1)

  unfoldable pub set_record : Bytes → Record → S → Result (Unit {0}) × S
  unfolding rewrite_hosts merge_record
  set_record domain r s = rewrite_hosts domain (λ hosts. ok (merge_record hosts r domain)) s

  unfoldable pub delete_record : Bytes → Bytes → S → Result (Unit {0}) × S
  unfolding rewrite_hosts is_empty kept_hosts
  delete_record domain id s =
      if is_empty id
      then (err (other (codes "namecheap: DeleteRecord requires a record ID")), s)
      else rewrite_hosts domain (kept_hosts id) s

  unfoldable pub apply_records : Bytes → List Record → S → Result (Unit {0}) × S
  unfolding rewrite_hosts merge_all
  apply_records domain rs s = rewrite_hosts domain (λ hosts. ok (merge_all hosts rs domain)) s

  unfoldable pub namecheap : Provider S
  unfolding get_records set_record delete_record
  namecheap = record {
    get_records = get_records;
    set_record = set_record;
    delete_record = delete_record;
  }
