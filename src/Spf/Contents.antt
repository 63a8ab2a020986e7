-- ===== src/Spf/Contents.antt =====
-- Where the includes stand in the merged value.
use dns_entree.Base.{
  Bool, true, false, not, List, [], ◌∷◌, ◌++◌, map, arith, if◌then◌else◌, ◌≡◌, ◌≢◌, refl, sym,
  subst, select, All, All-append, All-append_inv, All-map, All-map₂, All-image, Bool-cases, inl,
  inr, ◌⊎◌, append-nil,
}
use dns_entree.Text.{
  Bytes, codes, space, Lacks, to_lower, has_prefix, str_eq, contains, join, trim_space,
  contains-append_left, contains-append_right, contains_self, contains_split,
}
use dns_entree.Spf.Splice.{Spliced, insert_all-Spliced}
use dns_entree.Spf.Merge.{
  include_of, build_fresh, additions, insert_all, extend, version, merge_trimmed, merge_value,
}

-- Every word of a joined list stands in it.
contains-join_cons :
    (w : Bytes) (ws : List Bytes) (t : Bytes)
    → contains (join ws (space ∷ [])) t ≡ true
    → contains (join (w ∷ ws) (space ∷ [])) t ≡ true
unfolding join
contains-join_cons w [] t h = contains-append_left [] w t h
contains-join_cons w (v ∷ ws) t h =
    contains-append_right w (space ∷ join (v ∷ ws) (space ∷ [])) t
      (contains-append_right (space ∷ []) (join (v ∷ ws) (space ∷ [])) t h)

contains-join_head : (w : Bytes) (ws : List Bytes) → contains (join (w ∷ ws) (space ∷ [])) w ≡ true
unfolding join
contains-join_head w [] = rw append-nil at (contains_self w [])
contains-join_head w (v ∷ ws) = contains_self w _

contains-join : (ws : List Bytes) → All (λ w. contains (join ws (space ∷ [])) w ≡ true) ws
contains-join [] = tt
contains-join (w ∷ ws) =
    (contains-join_head w ws, All-map (λ t h. contains-join_cons w ws t h) ws (contains-join ws))

-- A fresh record holds every include.
pub build_fresh-contains :
    (includes : List Bytes)
    → All (λ m. contains (build_fresh includes) m ≡ true) (map include_of includes)
unfolding build_fresh
build_fresh-contains [] = tt
build_fresh-contains (i ∷ is) =
    (All-append_inv _ (map include_of (i ∷ is)) (codes "~all" ∷ [])
      (contains-join (version ∷ (map include_of (i ∷ is) ++ codes "~all" ∷ []))).1).0

-- A word stands in the record, or among the words that are added.
abbrev Kept : Bytes → List Bytes → Bytes → Type 0
Kept trimmed extra m = (contains trimmed m ≡ true) ⊎ (contains (join extra (space ∷ [])) m ≡ true)

abbrev missing : Bytes → List Bytes → List Bytes
missing trimmed = select (λ m. not (contains trimmed m))

Kept-cons :
    (trimmed w : Bytes) (extra : List Bytes) (m : Bytes)
    → Kept trimmed extra m
    → Kept trimmed (w ∷ extra) m
Kept-cons trimmed w extra m (inl h) = inl h
Kept-cons trimmed w extra m (inr h) = inr (contains-join_cons w extra m h)

missing-cons :
    (trimmed m : Bytes) (ms : List Bytes)
    → missing trimmed (m ∷ ms)
      ≡ (if contains trimmed m then missing trimmed ms else m ∷ missing trimmed ms)
missing-cons trimmed m ms = ground arith

missing_step :
    (trimmed m : Bytes) (ms extra : List Bytes) (b : Bool)
    → contains trimmed m ≡ b
    → All (Kept trimmed extra) ms
    → All (Kept trimmed (if b then extra else m ∷ extra)) (m ∷ ms)
missing_step trimmed m ms extra true y k = (inl y, k)
missing_step trimmed m ms extra false n k =
    (inr (contains-join_head m extra), All-map (Kept-cons trimmed m extra) ms k)

missing-Kept : (trimmed : Bytes) (ms : List Bytes) → All (Kept trimmed (missing trimmed ms)) ms
missing-Kept trimmed [] = tt
missing-Kept trimmed (m ∷ ms) =
    subst (λ extra. All (Kept trimmed extra) (m ∷ ms)) (sym (missing-cons trimmed m ms))
      (missing_step trimmed m ms (missing trimmed ms) (contains trimmed m) refl
        (missing-Kept trimmed ms))

-- A word with no space that stands in the record or in the insertion stands in the new value.
Spliced-contains :
    {trimmed : Bytes} {extra : List Bytes} (sp : Spliced trimmed extra) (m : Bytes)
    → Lacks space m
    → Kept trimmed extra m
    → contains (insert_all trimmed extra) m ≡ true
Spliced-contains {trimmed} {extra} sp m l k = rw sp.value (go sp.source k)
  where
    middle : Bytes
    middle = space ∷ join extra (space ∷ [])

    at_front :
        contains sp.front m ≡ true → contains (sp.front ++ (middle ++ space ∷ sp.rest)) m ≡ true
    at_front h = contains-append_left sp.front _ m h

    at_rest :
        contains sp.rest m ≡ true → contains (sp.front ++ (middle ++ space ∷ sp.rest)) m ≡ true
    at_rest h =
        contains-append_right sp.front _ m
          (contains-append_right middle _ m (contains-append_right (space ∷ []) sp.rest m h))

    go :
        (trimmed ≡ sp.front ++ space ∷ sp.rest) ⊎ ((trimmed ≡ sp.front) × (sp.rest ≡ codes "-all"))
        → Kept trimmed extra m
        → contains (sp.front ++ (middle ++ space ∷ sp.rest)) m ≡ true
    go s (inr h) =
        contains-append_right sp.front _ m
          (contains-append_left middle _ m (contains-append_right (space ∷ []) _ m h))
    go (inl e) (inl h) = elim (contains_split sp.front sp.rest m l (rw e at h)) [
      | inl a ↦ at_front a
      | inr b ↦ at_rest b
    ]
    go (inr (e, _)) (inl h) = at_front (rw e at h)

nothing_added : (trimmed m : Bytes) → Kept trimmed [] m → contains trimmed m ≡ true
unfolding join
nothing_added trimmed m (inl h) = h
nothing_added trimmed m (inr h) = contains-append_left [] trimmed m h

pub extend-contains :
    (trimmed : Bytes) (includes : List Bytes)
    → All (Lacks space) (map include_of includes)
    → All
        (λ m. contains (extend trimmed (additions trimmed includes)).value m ≡ true)
        (map include_of includes)
unfolding extend additions
extend-contains trimmed includes l = cases (missing trimmed ms) (missing-Kept trimmed ms)
  where
    ms : List Bytes
    ms = map include_of includes

    cases :
        (extra : List Bytes)
        → All (Kept trimmed extra) ms
        → All (λ m. contains (extend trimmed extra).value m ≡ true) ms
    cases [] k = All-map (λ m. nothing_added trimmed m) ms k
    cases (a ∷ extra) k =
        All-map₂ (Spliced-contains (insert_all-Spliced trimmed (a ∷ extra))) ms l k

include_of-Lacks : (inc : Bytes) → Lacks space inc → Lacks space (include_of inc)
include_of-Lacks inc l = All-append (λ c. c ≢ space) (codes "include:") inc (omega arith) l

pub includes-Lacks :
    (includes : List Bytes)
    → All (Lacks space) includes
    → All (Lacks space) (map include_of includes)
includes-Lacks includes l =
    All-image include_of (Lacks space) includes (All-map include_of-Lacks includes l)

pub spf_ne_nil : (v : Bytes) → has_prefix (to_lower v) version ≡ true → str_eq v [] ≡ false
unfolding str_eq has_prefix to_lower
spf_ne_nil [] h = cc
spf_ne_nil (c ∷ v) h = refl

-- Either a fresh record is written, or the record is an SPF record and is extended.
pub merge_cases :
    (t : Bytes) (includes : List Bytes)
    → (((merge_trimmed t includes).value ≡ build_fresh includes)
        × ((merge_trimmed t includes).changed ≡ true))
      ⊎ ((has_prefix (to_lower t) version ≡ true)
          × (merge_trimmed t includes ≡ extend t (additions t includes)))
unfolding merge_trimmed
merge_cases t includes = elim (Bool-cases (str_eq t [])) [
  | inl e ↦ inl (rw e, rw e)
  | inr n ↦ elim (Bool-cases (has_prefix (to_lower t) version)) [
    | inl p ↦ inr (p, rw (n, p))
    | inr q ↦ inl (rw (n, q), rw (n, q))
  ]
]

-- The test is for a substring: an SPF record that holds an include of a longer domain is taken to
-- hold the include of the shorter one, and is returned as it was.
pub merge_value-longer_domain :
    (front inc more rest : Bytes)
    → trim_space (front ++ (include_of inc ++ (more ++ rest)))
      ≡ front ++ (include_of inc ++ (more ++ rest))
    → has_prefix (to_lower (front ++ (include_of inc ++ (more ++ rest)))) version ≡ true
    → merge_value (front ++ (include_of inc ++ (more ++ rest))) (inc ∷ []) ≡ record {
      value = front ++ (include_of inc ++ (more ++ rest));
      changed = false;
      broken = false;
    }
unfolding merge_value merge_trimmed additions extend
merge_value-longer_domain front inc more rest trimmed spf = rw (
  trimmed,
  spf_ne_nil _ spf,
  spf,
  contains-append_right front (include_of inc ++ (more ++ rest)) (include_of inc)
      (contains_self (include_of inc) (more ++ rest)),
)
