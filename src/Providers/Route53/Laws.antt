-- ===== src/Providers/Route53/Laws.antt =====
-- providers/route53/route53.go: reading and deleting a record that was written, and the priorities
-- that are read.
use mathlib.Core.List.{reverse, reverse-append}
use dns_entree.Base.{
  ℕ, zero, suc, ◌+◌, ◌≡◌, refl, ap, true, ◌||◌, List, [], ◌∷◌, ◌++◌, map, some, arith, All,
  Bool-cases, inl, inr, All-append, ◌==◌, length, take,
}
use dns_entree.Text.{
  Bytes, codes, Lacks, str_eq, has_suffix, has_prefix-append, trim_suffix, str_eq_refl,
}
use dns_entree.Record.{Record, plain}
use dns_entree.Record.Errors.{Result, ok, err, ◌>>=◌}
use dns_entree.Template.Names.{is_empty}
use dns_entree.Providers.Priority.{NoPriority, ReadNoPriority}
use dns_entree.Providers.Route53.{
  Client, RecordSet, SetChange, quote, trim_quotes, trim_quotes_left, trim_quotes_right, in_quotes,
  from_value, is_wanted, all_records, to_set, find_zone, read_records, cut_byte, deletion,
}

from_value-NoPriority :
    (rrs : RecordSet) (vs : List Bytes) → All NoPriority (map (from_value rrs) vs)
unfolding from_value
from_value-NoPriority rrs [] = tt
from_value-NoPriority rrs (v ∷ vs) = (refl, from_value-NoPriority rrs vs)

all_records-NoPriority :
    (typ : Bytes) (sets : List RecordSet) → All NoPriority (all_records typ sets)
unfolding all_records
all_records-NoPriority typ [] = tt
all_records-NoPriority typ (rrs ∷ sets) = elim (Bool-cases (is_wanted typ rrs)) [
  | inl y ↦ rw y (
      All-append NoPriority (map (from_value rrs) rrs.values) (all_records typ sets)
        (from_value-NoPriority rrs rrs.values) (all_records-NoPriority typ sets))
  | inr n ↦ rw n (all_records-NoPriority typ sets)
]

trim-last_quote : (s : Bytes) → trim_quotes_right (s ++ quote ∷ []) ≡ trim_quotes_right s
unfolding trim_quotes_right
trim-last_quote [] = refl
trim-last_quote (c ∷ s) = rw (trim-last_quote s)

trim-quote_behind :
    (s : Bytes)
    → trim_quotes_right (trim_quotes_left (s ++ quote ∷ []))
      ≡ trim_quotes_right (trim_quotes_left s)
unfolding trim_quotes_left
trim-quote_behind [] = refl
trim-quote_behind (c ∷ s) = elim (Bool-cases (c == quote)) [
  | inl y ↦ rw y (trim-quote_behind s)
  | inr n ↦ rw n (trim-last_quote (c ∷ s))
]

trim-in_quotes : (typ s : Bytes) → trim_quotes (in_quotes typ s) ≡ trim_quotes s
unfolding in_quotes trim_quotes trim_quotes_right
trim-in_quotes typ s = elim (Bool-cases (str_eq typ (codes "TXT"))) [
  | inl y ↦ rw y (trim-quote_behind s)
  | inr n ↦ rw n
]

cut_byte_lem :
    (name typ : Bytes) → Lacks b'|' name → cut_byte b'|' (name ++ b'|' ∷ typ) ≡ some (name, typ)
unfolding cut_byte
cut_byte_lem [] typ h = refl
cut_byte_lem (c ∷ name) typ (hc, h) = ground (arith, cut_byte_lem name typ h)

module _ {S : Type 0} (client : Client S) (domain : Bytes) where
  pub read_records-NoPriority :
      (typ : Bytes) (s : S) → ReadNoPriority (read_records client domain typ s)
  unfolding read_records
  read_records-NoPriority typ s = in_zone (find_zone client domain s)
    where
      in_sets :
          (sets : Result (List RecordSet))
          → ReadNoPriority (sets >>= λ sets. ok (all_records typ sets))
      in_sets (ok sets) = all_records-NoPriority typ sets
      in_sets (err e) = tt

      in_zone :
          (zone : Result Bytes)
          → ReadNoPriority (
              zone >>= λ zone. client.list_record_sets zone s >>= λ sets. ok (all_records typ sets))
      in_zone (ok zone) = in_sets (client.list_record_sets zone s)
      in_zone (err e) = tt

-- The service lists a set with a dot behind its name.
abbrev pub dotted : RecordSet → RecordSet
dotted set = record set { name = set.name ++ codes "." }

take-front : (s t : Bytes) (n : ℕ) → length s ≡ n → take n (s ++ t) ≡ s
take-front [] t zero h = refl
take-front [] t (suc n) h = absurd (omega (arith, h))
take-front (c ∷ s) t zero h = absurd (omega (arith, h))
take-front (c ∷ s) t (suc n) h = ap (λ r. c ∷ r) (take-front s t n (omega (arith, h)))

length-dot : (s : Bytes) → length (s ++ codes ".") ≡ length s + 1
length-dot [] = refl
length-dot (c ∷ s) = omega (arith, length-dot s)

ends_in_dot : (s : Bytes) → has_suffix (s ++ codes ".") (codes ".") ≡ true
unfolding has_suffix
ends_in_dot s = rw (reverse-append s (codes ".")) (has_prefix-append (codes ".") (reverse s))

trim-dotted : (s : Bytes) → trim_suffix (s ++ codes ".") (codes ".") ≡ s
unfolding trim_suffix
trim-dotted s = rw (ends_in_dot s) (take-front s (codes ".") _ (omega (arith, length-dot s)))

-- The record that a written record is read back as.
abbrev pub stored : Record → Record
stored r = record (plain r.typ r.name r.content (to_set r).ttl) { id = r.name ++ b'|' ∷ r.typ }

from-to_set :
    (r : Record)
    → trim_quotes r.content ≡ r.content
    → from_value (dotted (to_set r)) (in_quotes r.typ r.content) ≡ stored r
unfolding from_value to_set
from-to_set r c = rw (trim-dotted r.name, trim-in_quotes r.typ r.content, c)

wanted_own : (t : Bytes) → (is_empty t || str_eq t t) ≡ true
wanted_own t = ground (arith, str_eq_refl t)

all_records-to_set :
    (r : Record) (sets : List RecordSet)
    → trim_quotes r.content ≡ r.content
    → all_records r.typ (dotted (to_set r) ∷ sets) ≡ stored r ∷ all_records r.typ sets
unfolding all_records to_set is_wanted
all_records-to_set r sets c = rw (wanted_own r.typ, from-to_set r c)

module _ {S : Type 0} (client : Client S) (domain : Bytes) where
  reads-to_set :
      (r : Record) (zone : Bytes) (sets : List RecordSet) (s : S)
      → find_zone client domain s ≡ ok zone
      → client.list_record_sets zone s ≡ ok (dotted (to_set r) ∷ sets)
      → trim_quotes r.content ≡ r.content
      → read_records client domain r.typ s ≡ ok (stored r ∷ all_records r.typ sets)
  unfolding read_records
  reads-to_set r zone sets s z l c = rw (z, l, all_records-to_set r sets c)

  -- Where the service lists first the set that a record was written as, with a dot behind its name,
  -- the record is read back under the name that was written (its TTL 300 where it was 0), and the
  -- deletion by the id that was read sends the set as it was written. The content does not start or
  -- end in a quote, and the name holds no bar.
  pub deletion-to_set :
      (r : Record) (zone : Bytes) (sets : List RecordSet) (s : S)
      → find_zone client domain s ≡ ok zone
      → client.list_record_sets zone s ≡ ok (dotted (to_set r) ∷ sets)
      → trim_quotes r.content ≡ r.content
      → Lacks b'|' r.name
      → (read_records client domain r.typ s ≡ ok (stored r ∷ all_records r.typ sets))
        × (deletion client domain (stored r).id s ≡ ok (zone, SetChange.delete_set (to_set r)))
  unfolding deletion to_set
  deletion-to_set r zone sets s z l c b = (
    reads-to_set r zone sets s z l c,
    rw (z, cut_byte_lem r.name r.typ b, l, all_records-to_set r sets c, str_eq_refl r.name),
  )
