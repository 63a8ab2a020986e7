-- ===== src/Template/Substitute/Reads.antt =====
-- How a text is read for its variables, told without the scan: names, where one starts, and what
-- takes its place.
use dns_entree.Base.{
  ℕ, ◌≡◌, sym, [], ◌∷◌, ◌++◌, arith, ◌⊎◌, Option, none, some, true, false, All, ◌≤◌, if_rule_by,
  subst,
}
use dns_entree.Text.{Bytes, str_eq, str_eq_iff, str_ne}
use dns_entree.Template.Types.{Processed, good, bad, missing_parameter}
use dns_entree.Template.Substitute.{Vars, value_of}
use dns_entree.Template.Substitute.Tokens.{percent, is_var_byte}

-- The bytes of a variable's name: letters, digits, `_` and `-`.
abbrev pub IsVarByte : ℕ → Type 0
IsVarByte c =
    ((97 ≤ c) × (c ≤ 122))
    ⊎ (((65 ≤ c) × (c ≤ 90)) ⊎ (((48 ≤ c) × (c ≤ 57)) ⊎ ((c ≡ 95) ⊎ (c ≡ 45))))

abbrev pub IsName : Bytes → Type 0
IsName [] = ⊥
IsName (c ∷ name) = IsVarByte c × All IsVarByte name

-- The text starts with a variable between two `%`.
abbrev pub Opens : Bytes → Type 0
Opens s = (name : Bytes) × (rest : Bytes) × IsName name × (s ≡ percent ∷ (name ++ percent ∷ rest))

-- The first value given to the name.
pub data IsValue (name : Bytes) : Vars → Option Bytes → Type 0 where
  absent : IsValue name [] none
  here : (k v : Bytes) (vars : Vars) → k ≡ name → IsValue name ((k, v) ∷ vars) (some v)
  later :
      (k v : Bytes) (vars : Vars) (o : Option Bytes)
      → (k ≡ name → ⊥)
      → IsValue name vars o
      → IsValue name ((k, v) ∷ vars) o

abbrev pub prefixed : Bytes → Processed Bytes → Processed Bytes
prefixed v (good r) = good (v ++ r)
prefixed v (bad e) = bad e

-- The text read from the left: a variable gives way to its value, or ends the reading where it has
-- none; a byte at which no variable starts stays.
pub data Substituted (vars : Vars) : Bytes → Processed Bytes → Type 0 where
  ended : Substituted vars [] (good [])
  plain :
      (c : ℕ) (s : Bytes) (r : Processed Bytes)
      → (Opens (c ∷ s) → ⊥)
      → Substituted vars s r
      → Substituted vars (c ∷ s) (prefixed (c ∷ []) r)
  valued :
      (name v s : Bytes) (r : Processed Bytes)
      → IsName name
      → IsValue name vars (some v)
      → Substituted vars s r
      → Substituted vars (percent ∷ (name ++ percent ∷ s)) (prefixed v r)
  missing :
      (name s : Bytes)
      → IsName name
      → IsValue name vars none
      → Substituted vars (percent ∷ (name ++ percent ∷ s)) (bad (missing_parameter name))

pub var_byte : (c : ℕ) → is_var_byte c ≡ true → IsVarByte c
unfolding is_var_byte
var_byte c h = ground (arith, h)

pub no_var_byte : (c : ℕ) → is_var_byte c ≡ false → IsVarByte c → ⊥
unfolding is_var_byte
no_var_byte c h v = ground (arith, h, v)

pub no_percent : (c : ℕ) → c ≡ percent → IsVarByte c → ⊥
no_percent c h v = ground (arith, h, v)

pub heads : (c d : ℕ) (s t : Bytes) → (c ∷ s) ≡ d ∷ t → (c ≡ d) × (s ≡ t)
heads c d s t h = (cc, cc)

-- A name has no `%` within it.
pub unclosed : (a n rest : Bytes) → All IsVarByte a → a ≡ n ++ percent ∷ rest → ⊥
unclosed [] [] rest h e = cc
unclosed [] (x ∷ n) rest h e = cc
unclosed (c ∷ a) [] rest (v, h) e = no_percent c (heads c percent a rest e).0 v
unclosed (c ∷ a) (x ∷ n) rest (v, h) e = unclosed a n rest h (heads c x a (n ++ percent ∷ rest) e).1

-- A byte that is no part of a name ends it without a `%`.
pub stopped :
    (a n s rest : Bytes) (c : ℕ)
    → All IsVarByte a
    → All IsVarByte n
    → (IsVarByte c → ⊥)
    → (c ≡ percent → ⊥)
    → (a ++ c ∷ s) ≡ n ++ percent ∷ rest
    → ⊥
stopped [] [] s rest c h k v p e = p (heads c percent s rest e).0
stopped [] (x ∷ n) s rest c h (w, k) v p e =
    v (subst IsVarByte (sym (heads c x s (n ++ percent ∷ rest) e).0) w)
stopped (y ∷ a) [] s rest c (w, h) k v p e = no_percent y (heads y percent (a ++ c ∷ s) rest e).0 w
stopped (y ∷ a) (x ∷ n) s rest c (_, h) (_, k) v p e =
    stopped a n s rest c h k v p (heads y x (a ++ c ∷ s) (n ++ percent ∷ rest) e).1

pub names : (n : Bytes) → IsName n → All IsVarByte n
names [] h = absurd h
names (c ∷ n) h = h

pub byte-Opens : (c : ℕ) (s : Bytes) → (c ≡ percent → ⊥) → Opens (c ∷ s) → ⊥
byte-Opens c s p (n, rest, h, e) = p (heads c percent s (n ++ percent ∷ rest) e).0

pub value_of-IsValue : (name : Bytes) (vars : Vars) → IsValue name vars (value_of name vars)
unfolding value_of
value_of-IsValue name [] = absent
value_of-IsValue name ((k, v) ∷ vars) =
    if_rule_by (IsValue name ((k, v) ∷ vars)) (str_eq k name) _ _
      (λ y. here k v vars ((str_eq_iff k name).0 y))
      (λ n. later k v vars (value_of name vars) (str_ne k name n) (value_of-IsValue name vars))
