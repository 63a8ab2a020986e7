-- ===== src/Template/Substitute/Numbers.antt =====
-- `fmt.Sscanf(s, "%d", &n)`: spaces, a sign, digits; what follows them is not read. The number must
-- fit in 64 bits.
use dns_entree.Base.{
  ℕ, ℤ, zero, suc, ◌+◌, ◌-◌, ◌*◌, ◌^◌, Bool, ◌&&◌, [], ◌∷◌, Option, none, some, leb, ltb, ◌==◌,
  if◌then◌else◌,
}
use dns_entree.Text.{Bytes, is_space}

unfoldable pub is_digit : ℕ → Bool
is_digit c = leb b'0' c && leb c b'9'

-- The value of the digits at the front, behind those that were read.
unfoldable pub digits_from : Bytes → ℕ → ℕ
unfolding is_digit
digits_from [] n = n
digits_from (c ∷ s) n =
    let more = digits_from s (n * 10 + (c - b'0')) in if is_digit c then more else n

unfoldable pub unsigned : Bytes → Option ℕ
unfolding digits_from
unsigned [] = none
unsigned (c ∷ s) = if is_digit c then some (digits_from (c ∷ s) 0) else none

-- -n, as an integer.
abbrev pub negate : ℕ → ℤ
negate zero = ℤ.pos 0
negate (suc n) = ℤ.negsuc n

unfoldable pub positive : Option ℕ → Option ℤ
positive none = none
positive (some n) = if ltb n (2 ^ 63) then some (ℤ.pos n) else none

unfoldable pub negative : Option ℕ → Option ℤ
negative none = none
negative (some n) = if leb n (2 ^ 63) then some (negate n) else none

unfoldable pub signed : Bytes → Option ℤ
unfolding positive negative unsigned
signed [] = none
signed (c ∷ s) =
    if c == b'-'
    then negative (unsigned s)
    else if c == b'+'
    then positive (unsigned s)
    else positive (unsigned (c ∷ s))

-- A line feed is not skipped: the scan fails on it.
unfoldable pub scan_int : Bytes → Option ℤ
unfolding signed is_space
scan_int [] = none
scan_int (c ∷ s) =
    let next = scan_int s in if c == 10 then none else if is_space c then next else signed (c ∷ s)
