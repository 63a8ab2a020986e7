-- ===== src/Template/Step/Placed.antt =====
-- When the record of an entry counts as added by the loop.
use dns_entree.Base.{
  ◌≤◌, ◌≡◌, refl, subst, Bool, true, false, ◌⊎◌, inl, inr, List, [], ◌∷◌, ◌++◌, arith, any, All,
  All-map,
}
use dns_entree.Text.{Bytes, codes, str_eq, str_eq_refl, str_eq_iff}
use dns_entree.Record.{Record}
use dns_entree.Template.Types.{Entry}
use dns_entree.Template.Names.{name_eq}
use dns_entree.Template.Keys.{record_key}
use dns_entree.Template.Keys.Counts.{count, count-append}
use dns_entree.Template.Step.{Plan, same_data, type_here, has_type}

-- The types whose records are always added; the others are added where their data is not there.
abbrev pub placing : List Bytes
placing =
    codes "CNAME"
    ∷ codes "A"
    ∷ codes "AAAA"
    ∷ codes "MX"
    ∷ codes "NS"
    ∷ codes "SRV"
    ∷ codes "REDIR301"
    ∷ codes "REDIR302"
    ∷ codes "APEXCNAME"
    ∷ []

-- A record with the type, the name and the content stands in the list.
abbrev pub Holds : Record → List Record → Type 0
Holds r [] = ⊥
Holds r (x ∷ xs) =
    ((x.typ ≡ r.typ) × (name_eq x.name r.name ≡ true) × (x.content ≡ r.content)) ⊎ Holds r xs

-- The record of an entry is among the added ones; or it is of a type that is not always added, and
-- its data was in the zone before or was added; or it was merged as SPFM.
pub data IsPlaced (start : List Record) (e : Entry) (added : List Record) : Type 0 where
  placed : 1 ≤ count (record_key e.rec) added → IsPlaced start e added
  there :
      e.is_backing ≡ false
      → any (str_eq e.rec.typ) placing ≡ false
      → Holds e.rec start ⊎ Holds e.rec added
      → IsPlaced start e added
  merged : e.is_backing ≡ false → e.rec.typ ≡ codes "SPFM" → IsPlaced start e added

abbrev pub In : Record → List Record → Type 0
In x [] = ⊥
In x (y ∷ ys) = (x ≡ y) ⊎ In x ys

-- Every record of the zone comes from the start or was added.
abbrev pub IsKnown : List Record → Plan → Type 0
IsKnown start s = All (λ x. In x start ⊎ In x s.to_add) s.zone

pub In-left : (x : Record) (rs ts : List Record) → In x rs → In x (rs ++ ts)
In-left x [] ts h = absurd h
In-left x (r ∷ rs) ts (inl e) = inl e
In-left x (r ∷ rs) ts (inr h) = inr (In-left x rs ts h)

pub In-right : (x : Record) (rs ts : List Record) → In x ts → In x (rs ++ ts)
In-right x [] ts h = h
In-right x (r ∷ rs) ts h = inr (In-right x rs ts h)

pub All-In : (rs : List Record) → All (λ x. In x rs) rs
All-In [] = tt
All-In (r ∷ rs) = (inl refl, All-map (λ x h. inr h) rs (All-In rs))

pub Holds-In :
    (r x : Record)
    → (x.typ ≡ r.typ) × (name_eq x.name r.name ≡ true) × (x.content ≡ r.content)
    → (rs : List Record) → In x rs
    → Holds r rs
Holds-In r x h [] i = i
Holds-In r x h (y ∷ rs) (inl e) = inl (
    subst
      (λ (z : Record). (z.typ ≡ r.typ) × (name_eq z.name r.name ≡ true) × (z.content ≡ r.content)) e
      h)
Holds-In r x h (y ∷ rs) (inr i) = inr (Holds-In r x h rs i)

pub same_data-fields :
    (r x : Record)
    → same_data r x ≡ true
    → (x.typ ≡ r.typ) × (name_eq x.name r.name ≡ true) × (x.content ≡ r.content)
unfolding same_data type_here has_type
same_data-fields r x h = (
  (str_eq_iff x.typ r.typ).0 (ground (arith, h)),
  ground (arith, h),
  (str_eq_iff x.content r.content).0 (ground (arith, h)),
)

-- Data that is in the zone is there from the start or was added.
pub Holds-known :
    (r : Record) (start added zone : List Record)
    → All (λ x. In x start ⊎ In x added) zone
    → any (same_data r) zone ≡ true
    → Holds r start ⊎ Holds r added
Holds-known r start added [] k h = cc
Holds-known r start added (x ∷ zone) (i, k) h =
    go (same_data r x) refl i (Holds-known r start added zone k)
  where
    go :
        (b : Bool)
        → same_data r x ≡ b
        → In x start ⊎ In x added
        → (any (same_data r) zone ≡ true → Holds r start ⊎ Holds r added)
        → Holds r start ⊎ Holds r added
    go true e (inl i') _ = inl (Holds-In r x (same_data-fields r x e) start i')
    go true e (inr i') _ = inr (Holds-In r x (same_data-fields r x e) added i')
    go false e _ rest = rest (ground (arith, h, e))

pub Holds-more : (r : Record) (rs ts : List Record) → Holds r rs → Holds r (rs ++ ts)
Holds-more r [] ts h = absurd h
Holds-more r (x ∷ rs) ts (inl e) = inl e
Holds-more r (x ∷ rs) ts (inr h) = inr (Holds-more r rs ts h)

pub IsPlaced-more :
    (start : List Record) (e : Entry) (added more : List Record)
    → IsPlaced start e added
    → IsPlaced start e (added ++ more)
IsPlaced-more start e added more (placed h) =
    placed (omega (arith, h, count-append (record_key e.rec) added more))
IsPlaced-more start e added more (there b t (inl h)) = there b t (inl h)
IsPlaced-more start e added more (there b t (inr h)) =
    there b t (inr (Holds-more e.rec added more h))
IsPlaced-more start e added more (merged b t) = merged b t

pub last-IsPlaced :
    (start : List Record) (e : Entry) (before : List Record)
    → IsPlaced start e (before ++ e.rec ∷ [])
last-IsPlaced start e before =
    placed (omega (arith, count-append (record_key e.rec) before (e.rec ∷ []), own))
  where
    own : count (record_key e.rec) (e.rec ∷ []) ≡ 1
    own = ground (arith, str_eq_refl (record_key e.rec))
