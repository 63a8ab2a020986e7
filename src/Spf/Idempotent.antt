-- ===== src/Spf/Idempotent.antt =====
-- Merging the same includes into the merged value changes nothing.
use dns_entree.Base.{
  true, false, not, List, [], ◌∷◌, ◌++◌, map, arith, ◌≡◌, refl, sym, ap, ◌∙◌, subst, select, Option,
  All, inl, inr, append_assoc, cons-ne-nil,
}
use dns_entree.Text.{
  Bytes, codes, space, Lacks, to_lower, has_prefix, contains, join, trim_space, has_prefix_longer,
  has_prefix_before, to_lower-append, is_flush, trim_right, trim_space_parts, trim_space_of_parts,
  trim_right_tail, trim_right-append, trim_space_idem,
}
use dns_entree.Spf.Merge.{
  Merged, include_of, build_fresh, additions, insert_all, extend, version, merge_trimmed,
  merge_value,
}
use dns_entree.Spf.{merge_spf}
use dns_entree.Spf.Recursive.{Resolver}
use dns_entree.Spf.Splice.{Spliced, insert_all-Spliced}
use dns_entree.Spf.Contents.{
  build_fresh-contains, extend-contains, includes-Lacks, merge_cases, spf_ne_nil,
}

-- A record that the merge leaves alone: trimmed, an SPF record, with every include in it.
pub record IsSettled (includes : List Bytes) (v : Bytes) : Type 0 where
  pub trimmed : trim_space v ≡ v
  pub spf : has_prefix (to_lower v) version ≡ true
  pub held : All (λ m. contains v m ≡ true) (map include_of includes)

nothing_missing :
    (v : Bytes) (ms : List Bytes)
    → All (λ m. contains v m ≡ true) ms
    → select (λ m. not (contains v m)) ms ≡ []
nothing_missing v [] h = refl
nothing_missing v (m ∷ ms) (hm, h) = rw hm (nothing_missing v ms h)

settled_merge :
    (includes : List Bytes) (v : Bytes)
    → IsSettled includes v
    → merge_value v includes ≡ record { value = v; changed = false; broken = false }
unfolding merge_value merge_trimmed additions
settled_merge includes v s =
    rw (s.trimmed, spf_ne_nil v s.spf, s.spf, nothing_missing v _ s.held) refl

-- A text from `v` to `l` is trimmed.
closed_trim : (s : Bytes) → trim_space (b'v' ∷ (s ++ codes "all")) ≡ b'v' ∷ (s ++ codes "all")
closed_trim s =
    trim_space_of_parts _ (unfold is_flush in refl)
      (trim_right-append (b'v' ∷ s) (codes "all") (cc) (unfold trim_right in refl))

join_last :
    (ws : List Bytes) (w l : Bytes)
    → join ((w ∷ ws) ++ l ∷ []) (space ∷ []) ≡ join (w ∷ ws) (space ∷ []) ++ (space ∷ l)
unfolding join
join_last [] w l = refl
join_last (v ∷ ws) w l = rw (join_last ws v l, append_assoc)

-- A fresh record begins with the version and a space, and ends with ` ~all`.
fresh_shape :
    (includes : List Bytes)
    → (s : Bytes) × (build_fresh includes ≡ version ++ (space ∷ (s ++ codes "all")))
unfolding build_fresh join
fresh_shape [] = (codes "~", refl)
fresh_shape (i ∷ is) = (
  join (map include_of (i ∷ is)) (space ∷ []) ++ codes " ~",
  rw (join_last (map include_of is) (include_of i) (codes "~all"), append_assoc),
)

shape_IsSettled :
    (includes : List Bytes) (v s : Bytes)
    → v ≡ version ++ (space ∷ (s ++ codes "all"))
    → All (λ m. contains v m ≡ true) (map include_of includes)
    → IsSettled includes v
shape_IsSettled includes v s e h = record {
  trimmed = rw e (closed_trim (codes "=spf1 " ++ s));
  spf = rw e (unfold to_lower has_prefix in refl);
  held = h;
}

front_spf :
    (front rest : Bytes)
    → has_prefix (to_lower (front ++ space ∷ rest)) version ≡ true
    → has_prefix (to_lower front) version ≡ true
unfolding to_lower
front_spf front rest h =
    has_prefix_before (to_lower front) version (to_lower rest) (omega arith)
      (rw (to_lower-append front (space ∷ rest)) at h)

longer_spf :
    (front t : Bytes)
    → has_prefix (to_lower front) version ≡ true
    → has_prefix (to_lower (front ++ t)) version ≡ true
longer_spf front t h =
    rw (to_lower-append front t) (has_prefix_longer (to_lower front) version (to_lower t) h)

-- The front part of the record holds the version.
Spliced-spf :
    {t : Bytes} {extra : List Bytes} (sp : Spliced t extra)
    → has_prefix (to_lower t) version ≡ true
    → has_prefix (to_lower sp.front) version ≡ true
Spliced-spf sp h = elim sp.source [
  | inl e ↦ front_spf sp.front sp.rest (rw e at h)
  | inr (e, _) ↦ rw e at h
]

spf_flush : (s t : Bytes) → has_prefix (to_lower s) version ≡ true → is_flush (s ++ t) ≡ true
unfolding to_lower has_prefix is_flush
spf_flush [] t h = cc
spf_flush (c ∷ s) t h = ground arith

rest_trimmed :
    {t : Bytes} {extra : List Bytes} (sp : Spliced t extra)
    → trim_right t ≡ t
    → trim_right (space ∷ sp.rest) ≡ space ∷ sp.rest
rest_trimmed sp h = elim sp.source [
  | inl e ↦ trim_right_tail sp.front (space ∷ sp.rest) (rw e at h)
  | inr (_, e) ↦ rw e (unfold trim_right in refl)
]

insert_all-trimmed :
    (t : Bytes) (extra : List Bytes)
    → trim_space t ≡ t
    → has_prefix (to_lower t) version ≡ true
    → (trim_space (insert_all t extra) ≡ insert_all t extra)
      × (has_prefix (to_lower (insert_all t extra)) version ≡ true)
insert_all-trimmed t extra trimmed spf =
    let sp = insert_all-Spliced t extra in
    let spf' = Spliced-spf sp spf in
    let tail = space ∷ join extra (space ∷ []) in
    rw sp.value (
      trim_space_of_parts _ (spf_flush sp.front _ spf') (
          trim_right-append sp.front _ (cons-ne-nil _ _) (
            trim_right-append tail (space ∷ sp.rest) (cc)
              (rest_trimmed sp (trim_space_parts t trimmed).1))),
      longer_spf sp.front _ spf',
    )

extend-IsSettled :
    (t : Bytes) (includes extra : List Bytes)
    → trim_space t ≡ t
    → has_prefix (to_lower t) version ≡ true
    → All (λ m. contains (extend t extra).value m ≡ true) (map include_of includes)
    → IsSettled includes (extend t extra).value
unfolding extend
extend-IsSettled t includes [] trimmed spf h = record { trimmed = trimmed; spf = spf; held = h }
extend-IsSettled t includes (a ∷ extra) trimmed spf h =
    let (trimmed', spf') = insert_all-trimmed t (a ∷ extra) trimmed spf in
    record { trimmed = trimmed'; spf = spf'; held = h }

pub merge_value-IsSettled :
    (current : Bytes) (includes : List Bytes)
    → All (Lacks space) includes
    → IsSettled includes (merge_value current includes).value
unfolding merge_value
merge_value-IsSettled current includes l = elim (merge_cases t includes) [
  | inl (e, _) ↦
      let (s, shape) = fresh_shape includes in
      shape_IsSettled includes _ s (e ∙ shape) (
        subst (λ v. All (λ m. contains v m ≡ true) (map include_of includes)) (sym e)
          (build_fresh-contains includes))
  | inr (spf, e) ↦
      subst (λ (m : Merged). IsSettled includes m.value) (sym e)
        (extend-IsSettled t includes (additions t includes) (trim_space_idem current) spf
          (extend-contains t includes (includes-Lacks includes l)))
]
  where
    t : Bytes
    t = trim_space current

-- Merging is idempotent: where no include holds a space, merging the same includes into the merged
-- value returns that value, unchanged, and calls it no broken input.
pub merge_value_idem :
    (current : Bytes) (includes : List Bytes)
    → All (Lacks space) includes
    → merge_value (merge_value current includes).value includes
      ≡ record { value = (merge_value current includes).value; changed = false; broken = false }
merge_value_idem current includes l =
    settled_merge includes _ (merge_value-IsSettled current includes l)

-- `MergeSPF` is idempotent: where no include holds a space, merging the same includes into the
-- merged value returns that value, says that nothing changed, and that the input was not broken,
-- whichever resolvers count the lookups.
pub merge_spf_idem :
    (r r' : Option Resolver) (current : Bytes) (includes : List Bytes)
    → All (Lacks space) includes
    → ((merge_spf r' (merge_spf r current includes).value includes).value
        ≡ (merge_spf r current includes).value)
      × ((merge_spf r' (merge_spf r current includes).value includes).changed ≡ false)
      × ((merge_spf r' (merge_spf r current includes).value includes).broken_input ≡ false)
unfolding merge_spf
merge_spf_idem r r' current includes l =
    let e = merge_value_idem current includes l in
    (
      ap (λ (m : Merged). m.value) e,
      ap (λ (m : Merged). m.changed) e,
      ap (λ (m : Merged). m.broken) e,
    )
