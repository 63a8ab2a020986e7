-- ===== src/Template/Keys/Decimal.antt =====
-- `%d`: an integer in decimal.
use dns_entree.Base.{ℕ, ℤ, zero, suc, ◌+◌, ◌/◌, ◌%◌, ◌≡◌, refl, [], ◌∷◌, if◌then◌else◌, ltb}
use dns_entree.Text.{Bytes, codes}

-- The digits of a number in front of those after them. The fuel is above the number, which falls
-- with each digit.
unfoldable pub digits : ℕ → ℕ → Bytes → Bytes
digits zero n out = out
digits (suc fuel) n out =
    let d = b'0' + n % 10 in
    let more = digits fuel (n / 10) (d ∷ out) in if ltb n 10 then d ∷ out else more

unfoldable pub decimal_ℕ : ℕ → Bytes
unfolding digits
decimal_ℕ n = digits (n + 1) n []

unfoldable pub decimal : ℤ → Bytes
unfolding decimal_ℕ
decimal (ℤ.pos n) = decimal_ℕ n
decimal (ℤ.negsuc n) = b'-' ∷ decimal_ℕ (n + 1)

prints : decimal (ℤ.negsuc 299) ≡ codes "-300"
unfolding decimal
prints = refl
