-- ===== src/Template/Names.antt =====
-- Host names of records: `nameEq`, `isChildOf`, `resolveHostName`, `resolvePointsTo` and the checks
-- of hosts, labels, addresses and targets.
use dns_entree.Base.{
  ℕ, ◌-◌, ◌≡◌, refl, Bool, true, false, ◌&&◌, ◌||◌, not, List, [], ◌∷◌, ◌++◌, Option, none, some,
  leb, ltb, ◌==◌, if◌then◌else◌, length, take, any,
}
use dns_entree.Text.{
  Bytes, codes, str_eq, to_lower, has_suffix, trim_suffix, contains, contains_any, split,
}

abbrev pub at : Bytes
at = codes "@"

abbrev pub dot : Bytes
dot = codes "."

unfoldable pub is_empty : Bytes → Bool
is_empty [] = true
is_empty (c ∷ s) = false

pub is_empty-nil : (s : Bytes) → is_empty s ≡ true → s ≡ []
unfolding is_empty
is_empty-nil [] h = refl
is_empty-nil (c ∷ s) h = cc

-- The apex, written `@` or left empty.
unfoldable pub is_apex : Bytes → Bool
unfolding is_empty
is_apex s = str_eq s at || is_empty s

unfoldable pub normal_name : Bytes → Bytes
unfolding is_apex
normal_name s = if is_apex (to_lower s) then at else to_lower s

unfoldable pub name_eq : Bytes → Bytes → Bool
unfolding normal_name
name_eq a b = str_eq (normal_name a) (normal_name b)

unfoldable pub is_child_of : Bytes → Bytes → Bool
unfolding is_apex
is_child_of child parent =
    let c = to_lower child in
    let p = to_lower parent in
    if is_apex p then not (is_apex c) && not (str_eq c p) else has_suffix c (dot ++ p)

-- The caller's host, where one is given that is not the apex.
unfoldable pub has_caller : Bytes → Bool
unfolding is_empty
has_caller host = not (is_empty host) && not (str_eq host at)

-- `none` is the error for a full name outside the zone.
unfoldable pub full_name_host : Bytes → Bytes → Option Bytes
full_name_host h domain =
    let suffix = dot ++ to_lower domain in
    if str_eq (to_lower h) (to_lower domain)
    then some at
    else if has_suffix (to_lower h) suffix
    then some (take (length h - length suffix) h)
    else none

unfoldable pub resolve_host_name : Bytes → Bytes → Bytes → Option Bytes
unfolding is_apex has_caller full_name_host
resolve_host_name h caller domain =
    if is_apex h
    then some (if has_caller caller then caller else at)
    else if has_suffix h dot
    then full_name_host (trim_suffix h dot) domain
    else some (if has_caller caller then h ++ (dot ++ caller) else h)

unfoldable pub resolve_points_to : Bytes → Bytes → Bytes → Bytes
unfolding has_caller
resolve_points_to val caller domain =
    if not (str_eq val at)
    then val
    else if has_caller caller
    then caller ++ (dot ++ domain)
    else domain

abbrev pub is_label_byte : ℕ → Bool
is_label_byte c =
    (leb b'a' c && leb c b'z')
    || ((leb b'A' c && leb c b'Z') || ((leb b'0' c && leb c b'9') || (c == b'-' || c == b'_')))

unfoldable pub all_bytes : (ℕ → Bool) → Bytes → Bool
all_bytes p [] = true
all_bytes p (c ∷ s) = p c && all_bytes p s

unfoldable pub last_is : ℕ → Bytes → Bool
last_is b [] = false
last_is b (c ∷ []) = c == b
last_is b (c ∷ d ∷ s) = last_is b (d ∷ s)

unfoldable pub first_is : ℕ → Bytes → Bool
first_is b [] = false
first_is b (c ∷ s) = c == b

-- `processValidateLabel`: true where the label is accepted.
unfoldable pub valid_label : Bytes → Bool
unfolding is_empty all_bytes last_is first_is
valid_label l =
    not (is_empty l)
    && (not (ltb 63 (length l))
        && (not (first_is b'-' l || last_is b'-' l) && all_bytes is_label_byte l))

abbrev pub is_bare : Bytes → Bool
is_bare l = str_eq l (codes "*") || str_eq l at

-- A `*` in a label: it must be the whole leftmost label, with no bare `*` or `@` behind it.
unfoldable pub wildcards_ok : Bool → List Bytes → Bool
wildcards_ok first [] = true
wildcards_ok first (l ∷ ls) =
    (if contains l (codes "*")
      then first && (str_eq l (codes "*") && not (any is_bare ls))
      else true)
    && wildcards_ok false ls

unfoldable pub labels_ok : List Bytes → Bool
unfolding valid_label
labels_ok [] = true
labels_ok (l ∷ ls) = (if is_bare l then true else valid_label l) && labels_ok ls

-- `processValidateHost`: true where the host is accepted.
unfoldable pub valid_host : Bytes → Bool
unfolding is_apex wildcards_ok labels_ok
valid_host host =
    if is_apex host
    then true
    else not (has_suffix host dot)
      && (not (contains_any host (codes " \t;"))
          && (not (ltb 253 (length host))
              && (wildcards_ok true (split host b'.') && labels_ok (split host b'.'))))

abbrev pub is_v4_byte : ℕ → Bool
is_v4_byte c = c == b'.' || (leb b'0' c && leb c b'9')

abbrev pub is_v6_byte : ℕ → Bool
is_v6_byte c =
    (leb b'0' c && leb c b'9')
    || ((leb b'a' c && leb c b'f') || ((leb b'A' c && leb c b'F') || (c == b':' || c == b'.')))

-- `processValidateIP`, for the types A and AAAA.
unfoldable pub valid_ip : Bytes → Bytes → Bool
unfolding all_bytes
valid_ip typ val =
    not (contains_any val (codes " \t"))
    && (if str_eq typ (codes "A")
        then contains val dot && all_bytes is_v4_byte val
        else if str_eq typ (codes "AAAA")
        then contains val (codes ":") && all_bytes is_v6_byte val
        else true)

-- `validatePointsToLength`.
unfoldable pub valid_target_length : Bytes → Bool
valid_target_length val =
    let v = trim_suffix val dot in
    not (ltb 253 (length v)) && not (any (λ l. ltb 63 (length l)) (split v b'.'))
