-- ===== src/Text/Trim.antt =====
-- `TrimSpace`, and `TrimSuffix` and `TrimPrefix` of one dot.
use dns_entree.Base.{
  ℕ, ◌≡◌, ◌≢◌, refl, Bool, true, not, ◌&&◌, [], ◌∷◌, ◌++◌, arith, leb, ◌==◌, if◌then◌else◌, ◌||◌,
  subst,
}
use dns_entree.Text.Core.{Bytes, space}

-- Tab, line feed, vertical tab, form feed, carriage return and space.
unfoldable pub is_space : ℕ → Bool
is_space c = c == space || (leb 9 c && leb c 13)

unfoldable pub trim_left : Bytes → Bytes
unfolding is_space
trim_left [] = []
trim_left (c ∷ s) = if is_space c then trim_left s else c ∷ s

abbrev pub put_front : ℕ → Bytes → Bytes
put_front c [] = if is_space c then [] else c ∷ []
put_front c (d ∷ s) = c ∷ d ∷ s

unfoldable pub trim_right : Bytes → Bytes
unfolding is_space
trim_right [] = []
trim_right (c ∷ s) = put_front c (trim_right s)

unfoldable pub trim_space : Bytes → Bytes
unfolding trim_left trim_right
trim_space s = trim_right (trim_left s)

trim_right_idem : (s : Bytes) → trim_right (trim_right s) ≡ trim_right s
unfolding trim_right
trim_right_idem [] = refl
trim_right_idem (c ∷ s) = ground (arith, trim_right_idem s)

-- A text with no white space at its front.
unfoldable pub is_flush : Bytes → Bool
unfolding is_space
is_flush [] = true
is_flush (c ∷ s) = not (is_space c)

trim_left_flush : (s : Bytes) → is_flush s ≡ true → trim_left s ≡ s
unfolding trim_left is_flush
trim_left_flush [] h = refl
trim_left_flush (c ∷ s) h = ground arith

flush-trim_left : (s : Bytes) → is_flush (trim_left s) ≡ true
unfolding trim_left is_flush
flush-trim_left [] = refl
flush-trim_left (c ∷ s) = ground (arith, flush-trim_left s)

flush-trim_right : (s : Bytes) → is_flush s ≡ true → is_flush (trim_right s) ≡ true
unfolding trim_right is_flush
flush-trim_right [] h = refl
flush-trim_right (c ∷ s) h = ground arith

pub trim_space_idem : (s : Bytes) → trim_space (trim_space s) ≡ trim_space s
unfolding trim_space
trim_space_idem s = cc (
  trim_left_flush (trim_right (trim_left s)) (flush-trim_right (trim_left s) (flush-trim_left s)),
  trim_right_idem (trim_left s),
)

-- What trimming leaves alone has no white space at its front and none at its end.
pub trim_space_parts : (s : Bytes) → trim_space s ≡ s → (is_flush s ≡ true) × (trim_right s ≡ s)
unfolding trim_space
trim_space_parts s h =
    let flush : is_flush s ≡ true =
      subst (λ t. is_flush t ≡ true) h (flush-trim_right (trim_left s) (flush-trim_left s)) in
    (flush, rw (trim_left_flush s flush) at h)

pub trim_space_of_parts : (s : Bytes) → is_flush s ≡ true → trim_right s ≡ s → trim_space s ≡ s
unfolding trim_space
trim_space_of_parts s f h = rw (trim_left_flush s f) h

pub trim_right_tail : (s t : Bytes) → trim_right (s ++ t) ≡ s ++ t → trim_right t ≡ t
unfolding trim_right
trim_right_tail [] t h = h
trim_right_tail (c ∷ s) t h = trim_right_tail s t (ground arith)

pub trim_right-append : (s t : Bytes) → t ≢ [] → trim_right t ≡ t → trim_right (s ++ t) ≡ s ++ t
unfolding trim_right
trim_right-append [] t n h = h
trim_right-append (c ∷ s) t n h = rw (trim_right-append s t n h) (front (s ++ t) (append_ne s t n))
  where
    append_ne : (s t : Bytes) → t ≢ [] → s ++ t ≢ []
    append_ne [] t n = n
    append_ne (c ∷ s) t n = cc

    front : (r : Bytes) → r ≢ [] → put_front c r ≡ c ∷ r
    front [] n = absurd (n refl)
    front (d ∷ r) n = refl
