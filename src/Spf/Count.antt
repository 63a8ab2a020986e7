-- ===== src/Spf/Count.antt =====
-- `CountSPFLookups`: how many words of a record make a receiver ask the DNS.
use dns_entree.Base.{ℕ, ◌+◌, Bool, true, ◌||◌, List, [], ◌∷◌, ◌++◌, arith, if◌then◌else◌, ◌≡◌}
use dns_entree.Text.{Bytes, codes, to_lower, has_prefix, str_eq, fields}

unfoldable pub is_lookup : Bytes → Bool
is_lookup low =
    if str_eq low (codes "a") || str_eq low (codes "mx")
    then true
    else has_prefix low (codes "include:")
      || (has_prefix low (codes "a:")
          || (has_prefix low (codes "mx:")
              || (has_prefix low (codes "ptr:")
                  || (has_prefix low (codes "exists:") || has_prefix low (codes "redirect=")))))

unfoldable pub count_words : List Bytes → ℕ
unfolding is_lookup
count_words [] = 0
count_words (tok ∷ toks) = (if is_lookup (to_lower tok) then 1 else 0) + count_words toks

unfoldable pub count_lookups : Bytes → ℕ
unfolding count_words
count_lookups spf = count_words (fields spf)

pub count_words-append :
    (xs ys : List Bytes) → count_words (xs ++ ys) ≡ count_words xs + count_words ys
unfolding count_words
count_words-append [] ys = omega arith
count_words-append (x ∷ xs) ys = omega (arith, count_words-append xs ys)
