-- ===== src/Spf/Merge.antt =====
-- `MergeSPF`: the value, and whether it changed.
use dns_entree.Base.{
  ℕ, Bool, true, false, not, List, [], ◌∷◌, ◌++◌, map, if◌then◌else◌, take, drop, select, Option,
  none, some,
}
use dns_entree.Text.{
  Bytes, codes, space, to_lower, has_prefix, str_eq, contains, index, join, trim_space,
}

pub record Merged : Type 0 where
  pub value : Bytes
  pub changed : Bool
  pub broken : Bool

abbrev pub include_of : Bytes → Bytes
include_of inc = codes "include:" ++ inc

unfoldable pub build_fresh : List Bytes → Bytes
build_fresh [] = codes "v=spf1 ~all"
build_fresh (i ∷ is) =
    join ((codes "v=spf1" ∷ map include_of (i ∷ is)) ++ codes "~all" ∷ []) (space ∷ [])

-- The include words that the record does not hold as a substring.
unfoldable pub additions : Bytes → List Bytes → List Bytes
additions trimmed includes = select (λ m. not (contains trimmed m)) (map include_of includes)

-- The place of the first of these texts, in their order, that stands in the record.
unfoldable pub first_at : Bytes → List Bytes → Option ℕ
first_at s [] = none
first_at s (t ∷ ts) = elim (index s t) [ none ↦ first_at s ts | some i ↦ some i ]

abbrev pub terminators : List Bytes
terminators = codes " -all" ∷ codes " ~all" ∷ codes " ?all" ∷ codes " +all" ∷ []

abbrev pub redirect : Bytes
redirect = codes " redirect="

unfoldable pub insertion_place : Bytes → Option ℕ
unfolding first_at
insertion_place trimmed = elim (first_at trimmed terminators) [
  | none ↦ index trimmed redirect
  | some i ↦ some i
]

unfoldable pub splice : Bytes → Bytes → Option ℕ → Bytes
splice trimmed extra none = trimmed ++ (extra ++ codes " -all")
splice trimmed extra (some i) = take i trimmed ++ (extra ++ drop i trimmed)

unfoldable pub insert_all : Bytes → List Bytes → Bytes
unfolding splice
insert_all trimmed extra =
    splice trimmed (space ∷ join extra (space ∷ [])) (insertion_place trimmed)

unfoldable pub extend : Bytes → List Bytes → Merged
unfolding insert_all
extend trimmed [] = record { value = trimmed; changed = false; broken = false }
extend trimmed (a ∷ extra) = record {
  value = insert_all trimmed (a ∷ extra);
  changed = true;
  broken = false;
}

abbrev pub version : Bytes
version = codes "v=spf1"

unfoldable pub merge_trimmed : Bytes → List Bytes → Merged
unfolding build_fresh extend
merge_trimmed trimmed includes =
    if str_eq trimmed []
    then record { value = build_fresh includes; changed = true; broken = false }
    else if not (has_prefix (to_lower trimmed) version)
    then record { value = build_fresh includes; changed = true; broken = true }
    else extend trimmed (additions trimmed includes)

unfoldable pub merge_value : Bytes → List Bytes → Merged
unfolding merge_trimmed
merge_value current includes = merge_trimmed (trim_space current) includes
