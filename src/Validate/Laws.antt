-- ===== src/Validate/Laws.antt =====
-- The names that `ValidateDNSName` accepts.
use dns_entree.Base.{
  ℕ, ◌≤◌, ◌≡◌, ◌≢◌, ◌↔◌, refl, sym, ap, ◌∙◌, subst, Bool, true, false, not, List, [], ◌∷◌, arith,
  Bool-cases, inl, inr, ◌⊎◌, All, All-map, length, &&_parts,
}
use dns_entree.Text.{
  Bytes, codes, str_eq, str_eq_iff, trim_suffix, split, join, join-split, split-join, Lacks,
  has_suffix,
}
use dns_entree.Template.Names.{is_empty, all_bytes, first_is, last_is, dot}
use dns_entree.Validate.{
  is_invalid_byte, is_name_byte, validate_dns_name_label, validate_labels, validate_dns_name,
}

-- A label of letters, digits, hyphens and underscores that no hyphen starts or ends.
pub record IsLabel (l : Bytes) : Type 0 where
  pub least : 1 ≤ length l
  pub most : length l ≤ 63
  pub bytes : All (λ c. is_name_byte c ≡ true) l
  pub start : first_is b'-' l ≡ false
  pub end : last_is b'-' l ≡ false

abbrev pub star : Bytes
star = codes "*"

-- The first label may be the wildcard.
abbrev pub AreLabels : List Bytes → Type 0
AreLabels [] = Unit
AreLabels (l ∷ ls) = ((l ≡ star) ⊎ IsLabel l) × All IsLabel ls

-- The labels of a name, dotted, with or without a dot behind the last one.
pub record IsDnsName (name : Bytes) : Type 0 where
  pub visible : All (λ c. is_invalid_byte c ≡ false) name
  pub labels : List Bytes
  pub clean : trim_suffix name dot ≡ join labels dot
  pub least : 2 ≤ length labels
  pub most : length (join labels dot) ≤ 253
  pub are_labels : AreLabels labels

all_bytes-All : (p : _) (s : Bytes) → (all_bytes p s ≡ true) ↔ All (λ c. p c ≡ true) s
unfolding all_bytes
all_bytes-All p [] = (λ _. tt, λ _. refl)
all_bytes-All p (c ∷ s) =
    let (there, back) = all_bytes-All p s in
    (
      λ h. let (hc, hs) = &&_parts (p c) (all_bytes p s) h in (hc, there hs),
      λ (hc, hs). ground (arith, hc, back hs),
    )

is_empty-length : (s : Bytes) → is_empty s ≡ false → 1 ≤ length s
unfolding is_empty
is_empty-length [] h = cc
is_empty-length (c ∷ s) h = omega arith

length-is_empty : (s : Bytes) → 1 ≤ length s → is_empty s ≡ false
unfolding is_empty
length-is_empty [] h = ground arith
length-is_empty (c ∷ s) h = refl

IsLabel-parts :
    (l : Bytes) (b : Bool)
    → validate_dns_name_label l b ≡ true
    → ((b ≡ true) × (l ≡ star)) ⊎ IsLabel l
unfolding validate_dns_name_label
IsLabel-parts l b h = elim (Bool-cases (str_eq l star)) [
  | inl y ↦ inl (ground arith, (str_eq_iff l star).0 y)
  | inr n ↦ inr (record {
    least = is_empty-length l (ground arith);
    most = ground arith;
    bytes = (all_bytes-All is_name_byte l).0 (ground arith);
    start = ground arith;
    end = ground arith;
  })
]

not_star : (l : Bytes) → All (λ c. is_name_byte c ≡ true) l → str_eq l star ≡ false
not_star l h = elim (Bool-cases (str_eq l star)) [
  | inl y ↦
      absurd (star_byte (subst (All (λ c. is_name_byte c ≡ true)) ((str_eq_iff l star).0 y) h))
  | inr n ↦ n
]
  where
    star_byte : All (λ c. is_name_byte c ≡ true) star → ⊥
    star_byte (e, _) = ground arith

label-accepted : (l : Bytes) (b : Bool) → IsLabel l → validate_dns_name_label l b ≡ true
unfolding validate_dns_name_label
label-accepted l b h = ground (
  arith,
  h.start,
  h.end,
  h.most,
  length-is_empty l h.least,
  not_star l h.bytes,
  (all_bytes-All is_name_byte l).1 h.bytes,
)

star-accepted : validate_dns_name_label star true ≡ true
unfolding validate_dns_name_label is_empty str_eq
star-accepted = refl

not_first : (l : Bytes) → validate_dns_name_label l false ≡ true → IsLabel l
not_first l h = elim (IsLabel-parts l false h) [ inl (e, _) ↦ cc | inr r ↦ r ]

rest_iff : (ls : List Bytes) → (validate_labels false ls ≡ true) ↔ All IsLabel ls
unfolding validate_labels
rest_iff [] = (λ _. tt, λ _. refl)
rest_iff (l ∷ ls) =
    let (there, back) = rest_iff ls in
    (
      λ h.
          let (hl, hs) = &&_parts (validate_dns_name_label l false) (validate_labels false ls) h in
          (not_first l hl, there hs),
      λ (hl, hs). ground (arith, label-accepted l false hl, back hs),
    )

labels_iff : (ls : List Bytes) → (validate_labels true ls ≡ true) ↔ AreLabels ls
unfolding validate_labels
labels_iff [] = (λ _. tt, λ _. refl)
labels_iff (l ∷ ls) =
    let (there, back) = rest_iff ls in
    (
      λ h.
          let (hl, hs) = &&_parts (validate_dns_name_label l true) (validate_labels false ls) h in
          (first_label (IsLabel-parts l true hl), there hs),
      λ (hl, hs). ground (arith, accepted hl, back hs),
    )
  where
    first_label : ((true ≡ true) × (l ≡ star)) ⊎ IsLabel l → (l ≡ star) ⊎ IsLabel l
    first_label (inl (_, e)) = inl e
    first_label (inr h) = inr h

    accepted : (l ≡ star) ⊎ IsLabel l → validate_dns_name_label l true ≡ true
    accepted (inl e) = ap (λ x. validate_dns_name_label x true) e ∙ star-accepted
    accepted (inr h) = label-accepted l true h

-- No dot stands in a label, so the labels are read back from the name.
IsLabel-Lacks : (l : Bytes) → IsLabel l → Lacks b'.' l
IsLabel-Lacks l h = All-map (λ c e. no_dot c e) l h.bytes
  where
    no_dot : (c : ℕ) → is_name_byte c ≡ true → c ≢ b'.'
    no_dot c e q = ground arith

AreLabels-Lacks : (l : Bytes) (ls : List Bytes) → AreLabels (l ∷ ls) → All (Lacks b'.') (l ∷ ls)
AreLabels-Lacks l ls (inl e, hs) =
    (subst (Lacks b'.') (sym e) ((λ q. ground arith), tt), All-map IsLabel-Lacks ls hs)
AreLabels-Lacks l ls (inr h, hs) = (IsLabel-Lacks l h, All-map IsLabel-Lacks ls hs)

visible_iff :
    (s : Bytes)
    → (all_bytes (λ c. not (is_invalid_byte c)) s ≡ true) ↔ All (λ c. is_invalid_byte c ≡ false) s
visible_iff s =
    let (there, back) = all_bytes-All (λ c. not (is_invalid_byte c)) s in
    (λ h. All-map (λ c e. ground arith) s (there h), λ h. back (All-map (λ c e. ground arith) s h))

accepted-IsDnsName : (name : Bytes) → validate_dns_name name ≡ true → IsDnsName name
unfolding validate_dns_name
accepted-IsDnsName name h =
    let clean : Bytes = trim_suffix name dot in
    record {
      visible = (visible_iff name).0 (ground arith);
      labels = split clean b'.';
      clean = sym (join-split b'.' clean);
      least = ground arith;
      most = subst (λ t. length t ≤ 253) (sym (join-split b'.' clean)) (ground arith);
      are_labels = (labels_iff (split clean b'.')).0 (ground arith);
    }

join-nonempty : (ls : List Bytes) → 2 ≤ length ls → is_empty (join ls dot) ≡ false
unfolding is_empty join
join-nonempty [] h = ground arith
join-nonempty (l ∷ []) h = ground arith
join-nonempty ([] ∷ m ∷ ls) h = refl
join-nonempty ((c ∷ l) ∷ m ∷ ls) h = refl

name-nonempty : (name : Bytes) → is_empty (trim_suffix name dot) ≡ false → is_empty name ≡ false
unfolding is_empty trim_suffix has_suffix
name-nonempty [] h = h
name-nonempty (c ∷ name) h = refl

split-labels : (ls : List Bytes) → 2 ≤ length ls → AreLabels ls → split (join ls dot) b'.' ≡ ls
split-labels [] n h = ground arith
split-labels (l ∷ ls) n h = split-join b'.' l ls (AreLabels-Lacks l ls h)

IsDnsName-accepted : (name : Bytes) → IsDnsName name → validate_dns_name name ≡ true
unfolding validate_dns_name
IsDnsName-accepted name h =
    let given : is_empty (trim_suffix name dot) ≡ false =
      ap is_empty h.clean ∙ join-nonempty h.labels h.least in
    let parts : split (trim_suffix name dot) b'.' ≡ h.labels =
      ap (λ t. split t b'.') h.clean ∙ split-labels h.labels h.least h.are_labels in
    ground (
      arith,
      h.least,
      h.most,
      h.clean,
      given,
      parts,
      name-nonempty name given,
      (visible_iff name).1 h.visible,
      (labels_iff h.labels).1 h.are_labels,
    )

-- A name is accepted exactly where it is at least two labels that are dotted to at most 253 bytes,
-- with or without a dot at the end: a wildcard or a label at the front and labels behind it, each of 1
-- to 63 letters, digits, hyphens and underscores that no hyphen starts or ends.
pub validate_dns_name_iff : (name : Bytes) → (validate_dns_name name ≡ true) ↔ IsDnsName name
validate_dns_name_iff name = (accepted-IsDnsName name, IsDnsName-accepted name)
