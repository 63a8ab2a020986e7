-- ===== src/Template/Entries/Kinds.antt =====
-- The type and the place of a single entry.
use dns_entree.Base.{
  ℕ, ◌≡◌, refl, sym, ap, ◌∙◌, true, false, not, List, [], ◌∷◌, map, arith, inl, inr, ◌⊎◌, All,
  if_rule,
}
use dns_entree.Text.{Bytes, codes, str_eq, str_eq_iff, to_upper, to_lower, lower_byte}
use dns_entree.Record.{Record}
use dns_entree.Template.Types.{TemplateRecord, Entry}
use dns_entree.Template.Names.{is_apex, is_empty}
use dns_entree.Template.Keys.{normalize_record}
use dns_entree.Template.Substitute.{Vars}
use dns_entree.Template.Entries.Build.{normal_entry, backing}

abbrev pub cname : Bytes
cname = codes "CNAME"

-- A backing record, or a record of this type, which stands below the apex where it is a CNAME.
abbrev pub IsKind : Bytes → Entry → Type 0
IsKind typ e =
    (e.is_backing ≡ true)
    ⊎ ((e.rec.typ ≡ typ) × (str_eq typ cname ≡ true → is_apex e.rec.name ≡ false))

pub one-IsKind :
    (typ : Bytes) (tr : TemplateRecord) (r : Record)
    → to_upper r.typ ≡ typ
    → str_eq typ cname ≡ false
    → All (IsKind typ) (normal_entry tr r)
unfolding normal_entry normalize_record
one-IsKind typ tr r h n = (inr (h, λ y. ground arith), tt)

lower_byte-at : (c : ℕ) → lower_byte c ≡ b'@' → c ≡ b'@'
unfolding lower_byte
lower_byte-at c h = ground arith

is_apex-to_lower : (h : Bytes) → is_apex h ≡ false → is_apex (to_lower h) ≡ false
unfolding is_apex is_empty to_lower str_eq
is_apex-to_lower [] h = cc
is_apex-to_lower (c ∷ []) h = ground (arith, lower_byte-at c)
is_apex-to_lower (c ∷ d ∷ s) h = ground arith

pub normal-apex : (r : Record) → is_apex r.name ≡ false → is_apex (normalize_record r).name ≡ false
unfolding normalize_record
normal-apex r h =
    if_rule (λ n. is_apex n ≡ false) (not (str_eq r.name (codes "@"))) _ _
      (is_apex-to_lower r.name h) h

pub backing-IsKind :
    (typ host : Bytes) (vars : Vars) (rrs : List TemplateRecord)
    → All (IsKind typ) (map (backing vars host) rrs)
unfolding backing
backing-IsKind typ host vars [] = tt
backing-IsKind typ host vars (rr ∷ rrs) = (inl refl, backing-IsKind typ host vars rrs)

-- A type that is another one is not CNAME.
pub not_cname :
    (typ t : Bytes) → str_eq typ t ≡ true → str_eq t cname ≡ false → str_eq typ cname ≡ false
not_cname typ t y n = ap (λ x. str_eq x cname) ((str_eq_iff typ t).0 y) ∙ n

-- An entry of a type whose name is fixed.
module _ (typ : Bytes) where
  pub known-IsKind :
      (t : Bytes)
      → str_eq typ t ≡ true
      → str_eq t cname ≡ false
      → to_upper t ≡ t
      → (tr : TemplateRecord) (r : Record) → r.typ ≡ t
      → All (IsKind typ) (normal_entry tr r)
  known-IsKind t y n u tr r e =
      one-IsKind typ tr r (ap to_upper e ∙ (u ∙ sym ((str_eq_iff typ t).0 y))) (not_cname typ t y n)
