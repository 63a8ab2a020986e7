-- ===== src/Template/Substitute/Decode.antt =====
-- template.go, `flexInt.UnmarshalJSON`: a number, a quoted number or a quoted text with a variable.
use dns_entree.Base.{
  ℕ, ℤ, ◌≡◌, refl, true, ◌||◌, ◌⊎◌, inl, inr, [], ◌∷◌, Option, none, some, if◌then◌else◌, ◌==◌,
  Bool-cases,
}
use dns_entree.Text.{Bytes, codes, str_eq, contains}
use dns_entree.Record.Errors.{other, Result, ok, err, IfOk}
use dns_entree.Template.Types.{FlexInt}
use dns_entree.Template.Names.{is_empty}
use dns_entree.Template.Substitute.Numbers.{scan_int}

abbrev pub quote_mark : ℕ
quote_mark = 34

-- What stands in front of a quote at the end.
abbrev pub up_to_quote : Bytes → Option Bytes
up_to_quote [] = none
up_to_quote (c ∷ []) = if c == quote_mark then some [] else none
up_to_quote (c ∷ d ∷ s) = elim (up_to_quote (d ∷ s)) [ none ↦ none | some t ↦ some (c ∷ t) ]

abbrev pub or_whole : Bytes → Option Bytes → Bytes
or_whole s none = s
or_whole s (some t) = t

-- Without its quotes, where it starts and ends in one.
unfoldable pub unquoted : Bytes → Bytes
unquoted [] = []
unquoted (c ∷ s) = if c == quote_mark then or_whole (c ∷ s) (up_to_quote s) else c ∷ s

abbrev pub no_number : FlexInt
no_number = record { value = ℤ.pos 0; raw = [] }

abbrev pub scanned : Option ℤ → Result FlexInt
scanned none = err (other (codes "template: invalid integer"))
scanned (some n) = ok (record { value = n; raw = [] })

unfoldable pub flex_of : Bytes → Result FlexInt
unfolding is_empty scan_int
flex_of s =
    if is_empty s
    then ok no_number
    else if contains s (codes "%")
    then ok (record { value = ℤ.pos 0; raw = s })
    else scanned (scan_int s)

unfoldable pub unmarshal_json : Bytes → Result FlexInt
unfolding unquoted flex_of is_empty
unmarshal_json b =
    if is_empty b || str_eq b (codes "null") then ok no_number else flex_of (unquoted b)

-- Either the number is decoded, or the text with a variable is kept for later.
abbrev IsDecoded : FlexInt → Type 0
IsDecoded f = (f.raw ≡ []) ⊎ ((f.value ≡ ℤ.pos 0) × (contains f.raw (codes "%") ≡ true))

scanned-IsDecoded : (n : Option ℤ) → IfOk IsDecoded (scanned n)
scanned-IsDecoded none = tt
scanned-IsDecoded (some n) = inl refl

flex_of-IsDecoded : (s : Bytes) → IfOk IsDecoded (flex_of s)
unfolding flex_of
flex_of-IsDecoded [] = inl refl
flex_of-IsDecoded (c ∷ s) = elim (Bool-cases (contains (c ∷ s) (codes "%"))) [
  | inl y ↦ rw y (inr (refl, y))
  | inr n ↦ rw n (scanned-IsDecoded (scan_int (c ∷ s)))
]

-- A field that is decoded holds a number, or 0 and the text of a variable.
pub unmarshal_json-IsDecoded : (b : Bytes) → IfOk IsDecoded (unmarshal_json b)
unfolding unmarshal_json
unmarshal_json-IsDecoded b = elim (Bool-cases (is_empty b || str_eq b (codes "null"))) [
  | inl y ↦ rw y (inl refl)
  | inr n ↦ rw n (flex_of-IsDecoded (unquoted b))
]
