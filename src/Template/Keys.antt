-- ===== src/Template/Keys.antt =====
-- `recordKey`, `removeRecords`, `deduplicateRecords` and `normalizeRecord`.
pub mod Decimal
pub mod Counts
pub mod Dedup
pub mod Fields
use dns_entree.Base.{
  ℕ, ℤ, ◌+◌, Bool, true, false, ◌||◌, not, List, [], ◌∷◌, ◌++◌, map, Option, none, some,
  if◌then◌else◌, any,
}
use dns_entree.Text.{Bytes, codes, str_eq, to_lower, to_upper}
use dns_entree.Record.{Record}
use Decimal.{decimal}

abbrev pub bar : ℕ
bar = b'|'

-- The fields behind the name, each behind a bar.
unfoldable pub key_tail : Record → Bytes
unfolding decimal
key_tail r =
    r.content
    ++ (bar
        ∷ (decimal r.ttl
            ++ (bar
                ∷ (decimal r.priority
                    ++ (bar
                        ∷ (decimal r.weight
                            ++ (bar
                                ∷ (decimal r.port
                                    ++ (bar ∷ (r.service ++ (bar ∷ r.protocol)))))))))))

unfoldable pub record_key : Record → Bytes
unfolding key_tail
record_key r = to_upper r.typ ++ (bar ∷ (to_lower r.name ++ (bar ∷ key_tail r)))

-- One occurrence of a key is taken from the keys that are left to remove.
unfoldable pub take_key : Bytes → List Bytes → Option (List Bytes)
take_key k [] = none
take_key k (x ∷ xs) =
    if str_eq x k then some xs else elim (take_key k xs) [ none ↦ none | some ys ↦ some (x ∷ ys) ]

-- A record is kept where its key is not among those to remove.
abbrev pub remove_one :
    Record → (List Bytes → List Record) → List Bytes → Option (List Bytes) → List Record
remove_one r rest keys none = r ∷ rest keys
remove_one r rest keys (some left) = rest left

unfoldable pub remove_keys : List Record → List Bytes → List Record
unfolding take_key
remove_keys [] keys = []
remove_keys (r ∷ rs) keys = remove_one r (remove_keys rs) keys (take_key (record_key r) keys)

unfoldable pub remove_records : List Record → List Record → List Record
unfolding remove_keys
remove_records zone to_remove = remove_keys zone (map record_key to_remove)

unfoldable pub dedup_seen : List Bytes → List Record → List Record
dedup_seen seen [] = []
dedup_seen seen (r ∷ rs) =
    let again = dedup_seen seen rs in
    let first = r ∷ dedup_seen (record_key r ∷ seen) rs in
    if any (str_eq (record_key r)) seen then again else first

unfoldable pub deduplicate : List Record → List Record
unfolding dedup_seen
deduplicate rs = dedup_seen [] rs

-- The types whose content is put in lower case.
unfoldable pub has_host_content : Bytes → Bool
has_host_content t =
    str_eq t (codes "A")
    || (str_eq t (codes "AAAA")
        || (str_eq t (codes "CNAME")
            || (str_eq t (codes "MX") || (str_eq t (codes "NS") || str_eq t (codes "SRV")))))

unfoldable pub normalize_record : Record → Record
unfolding has_host_content
normalize_record r = record r {
  typ = to_upper r.typ;
  name = if not (str_eq r.name (codes "@")) then to_lower r.name else r.name;
  content = if has_host_content (to_upper r.typ) then to_lower r.content else r.content;
  protocol = to_lower r.protocol;
}
