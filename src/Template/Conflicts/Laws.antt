-- ===== src/Template/Conflicts/Laws.antt =====
-- What a template that passes `checkInternalConflicts` holds.
use dns_entree.Base.{
  ◌≡◌, refl, sym, ap, ◌∙◌, subst, Bool, true, false, ◌&&◌, ◌||◌, not, List, [], ◌∷◌, Option, none,
  some, if◌then◌else◌, any, arith, All, All-map, All-of_any, Bool-cases, inl, inr,
}
use dns_entree.Text.{Bytes, codes, str_eq, str_eq_iff, to_lower, is_some}
use dns_entree.Template.Types.{Entry, good}
use dns_entree.Template.Conflicts.{
  NameInfo, Names, info_of, is_neutral, see_type, see_names, cascades, check_internal_conflicts,
}

abbrev pub is_cname_type : Bytes → Bool
is_cname_type t = str_eq t (codes "CNAME")

abbrev pub is_ns_type : Bytes → Bool
is_ns_type t = not (is_cname_type t) && str_eq t (codes "NS")

abbrev pub is_other_type : Bytes → Bool
is_other_type t = not (is_cname_type t) && (not (str_eq t (codes "NS")) && not (is_neutral t))

-- Types that cannot stand at one name: CNAME with CNAME, and two of CNAME, NS and the others that
-- differ. SPFM, TXT and redirects stand beside anything.
abbrev pub clashes : Bytes → Bytes → Bool
clashes t u =
    (is_cname_type t && (is_cname_type u || (is_ns_type u || is_other_type u)))
    || ((is_ns_type t && (is_cname_type u || is_other_type u))
        || (is_other_type t && (is_cname_type u || is_ns_type u)))

-- A record that was let in lets in no record that it clashes with.
seen-clash :
    (t u : Bytes) (i j : NameInfo)
    → see_type t i ≡ some j
    → is_some (see_type u j) ≡ true
    → clashes t u ≡ false
unfolding see_type
seen-clash t u i j h k = ground arith

-- What is known at a name only grows, and a record that more is known against was let in before.
module _ (t u : Bytes) (i j : NameInfo) where
  seen-before :
      see_type t i ≡ some j → is_some (see_type u j) ≡ true → is_some (see_type u i) ≡ true
  unfolding see_type
  seen-before h k = ground arith

abbrev LetIn : Names → Entry → Type 0
LetIn names f = is_some (see_type f.rec.typ (info_of (to_lower f.rec.name) names)) ≡ true

LetIn-before :
    (names : Names) (t n : Bytes) (j : NameInfo)
    → see_type t (info_of n names) ≡ some j
    → (f : Entry) → LetIn ((n, j) ∷ names) f
    → LetIn names f
unfolding info_of
LetIn-before names t n j e f h = elim (Bool-cases (str_eq n m)) [
  | inl y ↦
      subst (λ x. is_some (see_type f.rec.typ (info_of x names)) ≡ true) ((str_eq_iff n m).0 y)
        (seen-before t f.rec.typ (info_of n names) j e
          (ap (λ b. is_some (see_type f.rec.typ (if b then j else info_of m names))) (sym y) ∙ h))
  | inr y ↦ ap (λ b. is_some (see_type f.rec.typ (if b then j else info_of m names))) (sym y) ∙ h
]
  where
    m : Bytes
    m = to_lower f.rec.name

see_names-step :
    (e : Entry) (es : List Entry) (names : Names)
    → see_names (e ∷ es) names ≡ true
    → (j : NameInfo) × (see_type e.rec.typ (info_of (to_lower e.rec.name) names) ≡ some j)
      × (see_names es ((to_lower e.rec.name, j) ∷ names) ≡ true)
unfolding see_names
see_names-step e es names h = go (see_type e.rec.typ (info_of (to_lower e.rec.name) names)) refl h
  where
    go :
        (o : Option NameInfo)
        → see_type e.rec.typ (info_of (to_lower e.rec.name) names) ≡ o
        → elim o [ none ↦ false | some i ↦ see_names es ((to_lower e.rec.name, i) ∷ names) ] ≡ true
        → (j : NameInfo) × (see_type e.rec.typ (info_of (to_lower e.rec.name) names) ≡ some j)
          × (see_names es ((to_lower e.rec.name, j) ∷ names) ≡ true)
    go none q k = cc
    go (some j) q k = (j, q, k)

see_names-LetIn :
    (es : List Entry) (names : Names) → see_names es names ≡ true → All (LetIn names) es
see_names-LetIn [] names h = tt
see_names-LetIn (e ∷ es) names h =
    let (j, seen, rest) = see_names-step e es names h in
    (
      ap is_some seen,
      All-map (LetIn-before names e.rec.typ (to_lower e.rec.name) j seen) es
          (see_names-LetIn es ((to_lower e.rec.name, j) ∷ names) rest),
    )

-- The entry clashes with none of the entries at its name.
abbrev pub Clear : Entry → Entry → Type 0
Clear e f =
    str_eq (to_lower e.rec.name) (to_lower f.rec.name) ≡ true → clashes e.rec.typ f.rec.typ ≡ false

abbrev pub AllClear : List Entry → Type 0
AllClear [] = Unit
AllClear (e ∷ es) = All (Clear e) es × AllClear es

LetIn-Clear :
    (names : Names) (e : Entry) (j : NameInfo)
    → see_type e.rec.typ (info_of (to_lower e.rec.name) names) ≡ some j
    → (f : Entry) → LetIn ((to_lower e.rec.name, j) ∷ names) f
    → Clear e f
unfolding info_of
LetIn-Clear names e j seen f h y =
    seen-clash e.rec.typ f.rec.typ (info_of (to_lower e.rec.name) names) j seen (
      ap (λ b. is_some (see_type f.rec.typ (if b then j else info_of (to_lower f.rec.name) names)))
        (sym y)
      ∙ h)

see_names-AllClear : (es : List Entry) (names : Names) → see_names es names ≡ true → AllClear es
see_names-AllClear [] names h = tt
see_names-AllClear (e ∷ es) names h =
    let (j, seen, rest) = see_names-step e es names h in
    (
      All-map (LetIn-Clear names e j seen) es
          (see_names-LetIn es ((to_lower e.rec.name, j) ∷ names) rest),
      see_names-AllClear es ((to_lower e.rec.name, j) ∷ names) rest,
    )

check_parts :
    (es : List Entry)
    → check_internal_conflicts es ≡ good tt
    → (see_names es [] ≡ true) × (any (cascades es) es ≡ false)
unfolding check_internal_conflicts
check_parts es h = ground arith

-- Where the check passes, no two records at one name clash: no CNAME stands beside another CNAME, an
-- NS record or a record of another counted type, and no NS record beside one of these; and no record
-- but NS stands below the name of an NS record.
pub check_internal_conflicts-AllClear :
    (es : List Entry)
    → check_internal_conflicts es ≡ good tt
    → AllClear es × All (λ e. cascades es e ≡ false) es
check_internal_conflicts-AllClear es h =
    let (seen, cascade) = check_parts es h in
    (see_names-AllClear es [] seen, All-of_any (cascades es) es cascade)
