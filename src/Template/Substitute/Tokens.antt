-- ===== src/Template/Substitute/Tokens.antt =====
-- The matches of `%([a-zA-Z0-9_-]+)%`, leftmost first, and the bytes between them.
use dns_entree.Base.{ℕ, Bool, ◌&&◌, ◌||◌, List, [], ◌∷◌, ◌++◌, leb, ◌==◌, if◌then◌else◌, map}
use dns_entree.Text.{Bytes}

pub data Piece : Type 0 where
  byte : ℕ → Piece
  var : Bytes → Piece

abbrev pub percent : ℕ
percent = b'%'

abbrev pub is_alnum : ℕ → Bool
is_alnum c =
    (leb b'a' c && leb c b'z') || ((leb b'A' c && leb c b'Z') || (leb b'0' c && leb c b'9'))

unfoldable pub is_var_byte : ℕ → Bool
is_var_byte c = is_alnum c || (c == b'_' || c == b'-')

abbrev pub literal : Bytes → List Piece
literal = map byte

-- Where the match stands: between variables, or behind a `%` and a part of a name.
pub data Place : Type 0 where
  outside : Place
  behind : Bytes → Place

unfoldable pub scan : Bytes → Place → List Piece
unfolding is_var_byte
scan [] outside = []
scan [] (behind name) = literal (percent ∷ name)
scan (c ∷ s) outside =
    let open_ = scan s (behind []) in
    let plain_ = byte c ∷ scan s outside in if c == percent then open_ else plain_
scan (c ∷ s) (behind []) =
    let again = byte percent ∷ scan s (behind []) in
    let longer = scan s (behind (c ∷ [])) in
    let none_ = byte percent ∷ byte c ∷ scan s outside in
    if c == percent then again else if is_var_byte c then longer else none_
scan (c ∷ s) (behind (d ∷ name)) =
    let found = var (d ∷ name) ∷ scan s outside in
    let longer = scan s (behind (d ∷ (name ++ c ∷ []))) in
    let none_ = literal (percent ∷ d ∷ name) ++ (byte c ∷ scan s outside) in
    if c == percent then found else if is_var_byte c then longer else none_

unfoldable pub pieces : Bytes → List Piece
unfolding scan
pieces s = scan s outside
