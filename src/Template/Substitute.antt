-- ===== src/Template/Substitute.antt =====
-- `%variable%` tokens: `processSubstitute`, `checkUnclosedVar`, `singleVarRe` and `flexInt.resolve`.
pub mod Decode
pub mod Tokens
pub mod Numbers
pub mod Reads
pub mod Laws
use dns_entree.Base.{
  ℕ, ℤ, zero, suc, ◌+◌, ◌≡◌, refl, Bool, true, false, ◌&&◌, ◌||◌, not, List, [], ◌∷◌, ◌++◌, Option,
  none, some, arith, ◌==◌, if◌then◌else◌,
}
use dns_entree.Text.{Bytes, codes, str_eq}
use dns_entree.Template.Types.{
  FlexInt, ProcessError, invalid_data, missing_parameter, Processed, good, bad, ◌>>=◌, ◌>>◌,
  refuse_if,
}
use Tokens.{Piece, byte, var, percent, pieces}
use Numbers.{scan_int}

-- `map[string]string`; a later assignment is put in front.
abbrev pub Vars : Type 0
Vars = List (Bytes × Bytes)

unfoldable pub value_of : Bytes → Vars → Option Bytes
value_of name [] = none
value_of name ((k, v) ∷ vars) = if str_eq k name then some v else value_of name vars

-- The values put in, and the first variable that has none.
unfoldable pub expand_var : Option Bytes → Bytes → Processed Bytes → Processed Bytes
expand_var none name rest = bad (missing_parameter name)
expand_var (some v) name rest = do r ← rest; good (v ++ r)

unfoldable pub expand : Vars → List Piece → Processed Bytes
unfolding value_of expand_var
expand vars [] = good []
expand vars (byte c ∷ ps) = do r ← expand vars ps; good (c ∷ r)
expand vars (var name ∷ ps) = expand_var (value_of name vars) name (expand vars ps)

unfoldable pub process_substitute : Bytes → Vars → Processed Bytes
unfolding expand pieces
process_substitute input vars = expand vars (pieces input)

unfoldable pub count_percent : List Piece → ℕ
count_percent [] = 0
count_percent (byte c ∷ ps) = (if c == percent then 1 else 0) + count_percent ps
count_percent (var name ∷ ps) = count_percent ps

-- An error where the text without its variables holds a `%` and no second one.
unfoldable pub is_unclosed : Bytes → Bool
unfolding count_percent pieces
is_unclosed s = count_percent (pieces s) == 1

unfoldable pub is_single_var : Bytes → Bool
unfolding pieces
is_single_var s = elim (pieces s) [
  | [] ↦ false
  | p ∷ ps ↦ elim ps [ [] ↦ elim p [ byte c ↦ false | var name ↦ true ] | q ∷ qs ↦ false ]
]

unfoldable pub has_percent : Bytes → Bool
has_percent [] = false
has_percent (c ∷ s) = if c == percent then true else has_percent s

unfoldable pub number_of : Bytes → Processed ℤ
unfolding scan_int
number_of [] = good (ℤ.pos 0)
number_of (c ∷ s) = elim (scan_int (c ∷ s)) [ none ↦ bad invalid_data | some n ↦ good n ]

-- `flexInt.resolve`, whose errors the callers turn into `InvalidData`.
unfoldable pub resolve_raw : Bytes → Vars → Processed ℤ
unfolding has_percent is_single_var process_substitute number_of
resolve_raw raw vars =
    if has_percent raw && not (is_single_var raw)
    then bad invalid_data
    else elim (process_substitute raw vars) [ bad e ↦ bad invalid_data | good sub ↦ number_of sub ]

unfoldable pub resolve_int : FlexInt → Vars → Processed ℤ
unfolding resolve_raw
resolve_int f vars = if str_eq f.raw [] then good f.value else resolve_raw f.raw vars
