-- ===== src/Validate.antt =====
-- validate.go: names and values of DNS records, and whether they are accepted.
pub mod Laws
mod Tests
use dns_entree.Base.{
  ℕ, ℤ, ◌+◌, Bool, true, false, ◌&&◌, ◌||◌, not, List, [], ◌∷◌, ◌++◌, Option, none, some,
  if◌then◌else◌, any, length, ltb, leb, ◌==◌,
}
use dns_entree.Text.{Bytes, codes, str_eq, to_upper, trim_suffix, trim_space, split}
use dns_entree.Template.Names.{is_empty, all_bytes, first_is, last_is, dot}
use dns_entree.Template.Signature.{atoi}

-- A control character, a space or DEL.
abbrev pub is_invalid_byte : ℕ → Bool
is_invalid_byte c = leb c 32 || c == 127

abbrev pub is_name_byte : ℕ → Bool
is_name_byte c =
    (leb b'a' c && leb c b'z')
    || ((leb b'A' c && leb c b'Z') || ((leb b'0' c && leb c b'9') || (c == b'-' || c == b'_')))

unfoldable pub validate_dns_name_label : Bytes → Bool → Bool
unfolding is_empty first_is last_is all_bytes
validate_dns_name_label label is_first =
    not (is_empty label)
    && (not (ltb 63 (length label))
        && (if str_eq label (codes "*")
            then is_first
            else not (first_is b'-' label || last_is b'-' label) && all_bytes is_name_byte label))

unfoldable pub validate_labels : Bool → List Bytes → Bool
unfolding validate_dns_name_label
validate_labels is_first [] = true
validate_labels is_first (l ∷ ls) = validate_dns_name_label l is_first && validate_labels false ls

-- True where `ValidateDNSName` returns nil.
unfoldable pub validate_dns_name : Bytes → Bool
unfolding is_empty all_bytes validate_labels
validate_dns_name name =
    let clean = trim_suffix name dot in
    not (is_empty name)
    && (all_bytes (λ c. not (is_invalid_byte c)) name
        && (not (is_empty clean)
            && (not (ltb 253 (length clean))
                && (not (ltb (length (split clean b'.')) 2)
                    && validate_labels true (split clean b'.')))))

-- `net.ParseIP` and `To4`.
pub data Ip : Type 0 where
  v4 v6 : Ip

abbrev pub is_v4 : Option Ip → Bool
is_v4 none = false
is_v4 (some v4) = true
is_v4 (some v6) = false

abbrev pub is_v6 : Option Ip → Bool
is_v6 none = false
is_v6 (some v4) = false
is_v6 (some v6) = true

abbrev pub is_priority : Option ℤ → Bool
is_priority none = false
is_priority (some (ℤ.pos n)) = true
is_priority (some (ℤ.negsuc n)) = false

-- The text up to the first space, and what stands behind it.
unfoldable pub cut_space : Bytes → Option (Bytes × Bytes)
cut_space [] = none
cut_space (c ∷ s) =
    if c == 32
    then some ([], s)
    else elim (cut_space s) [ none ↦ none | some p ↦ some (c ∷ p.0, p.1) ]

unfoldable pub valid_mx : Option (Bytes × Bytes) → Bool
unfolding is_empty atoi
valid_mx none = false
valid_mx (some p) = is_priority (atoi p.0) && not (is_empty (trim_space p.1))

-- True where `ValidateRecordValue` returns nil.
unfoldable pub validate_record_value : (Bytes → Option Ip) → Bytes → Bytes → Bool
unfolding is_empty validate_dns_name cut_space valid_mx
validate_record_value parse_ip record_type value =
    let typ = to_upper record_type in
    let given = not (is_empty value) in
    if str_eq typ (codes "A")
    then given && is_v4 (parse_ip value)
    else if str_eq typ (codes "AAAA")
    then given && is_v6 (parse_ip value)
    else if str_eq typ (codes "CNAME")
    then given && validate_dns_name value
    else if str_eq typ (codes "MX")
    then given && valid_mx (cut_space value)
    else if str_eq typ (codes "TXT")
    then given && not (ltb 4096 (length value))
    else if str_eq typ (codes "NS")
    then given && validate_dns_name value
    else if str_eq typ (codes "SRV")
    then given
    else true
