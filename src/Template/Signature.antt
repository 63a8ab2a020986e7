-- ===== src/Template/Signature.antt =====
-- sigverify.go: `parseDCPubKeyTXT` and `VerifySignature`. The decoding of base64 and of keys, the hash
-- and the RSA check are parameters.
use dns_entree.Base.{
  ℕ, ℤ, ◌+◌, Bool, true, false, ◌&&◌, not, List, [], ◌∷◌, ◌++◌, Option, none, some, if◌then◌else◌,
  ltb, ◌==◌,
}
use dns_entree.Text.{Bytes, codes, trim_space, trim_prefix, has_prefix}
use dns_entree.Template.Types.{bad_signature, Processed, good, bad, ◌>>=◌, ◌>>◌, refuse_if}
use dns_entree.Template.Names.{is_empty, dot, all_bytes}
use dns_entree.Template.Substitute.Numbers.{is_digit, signed}

-- The packages base64, x509, sha256 and rsa; `parse_key` is `none` where the key is not an RSA key.
pub record Crypto (K : Type 0) : Type 0 where
  pub decode_base64 : Bytes → Option Bytes
  pub parse_key : Bytes → Option K
  pub sum256 : Bytes → Bytes
  pub verify : K → Bytes → Bytes → Bool

pub record Part : Type 0 where
  pub order : ℤ
  pub chunk : Bytes

-- `strconv.Atoi`: the whole text, which must fit in 64 bits.
unfoldable pub is_number : Bytes → Bool
unfolding all_bytes is_digit is_empty
is_number [] = false
is_number (c ∷ s) =
    if c == b'-'
    then not (is_empty s) && all_bytes is_digit s
    else if c == b'+'
    then not (is_empty s) && all_bytes is_digit s
    else all_bytes is_digit (c ∷ s)

unfoldable pub atoi : Bytes → Option ℤ
unfolding is_number signed
atoi s = if is_number s then signed s else none

-- The text up to the first comma, and what stands behind it.
unfoldable pub cut_comma : Bytes → Option (Bytes × Bytes)
cut_comma [] = none
cut_comma (c ∷ s) =
    if c == b','
    then some ([], s)
    else elim (cut_comma s) [ none ↦ none | some p ↦ some (c ∷ p.0, p.1) ]

-- `strings.SplitN(txt, ",", 3)` where it gives three fields: the first and the last.
unfoldable pub first_and_third : Bytes → Option (Bytes × Bytes)
unfolding cut_comma
first_and_third s = elim (cut_comma s) [
  | none ↦ none
  | some p ↦ elim (cut_comma p.1) [ none ↦ none | some q ↦ some (p.0, q.1) ]
]

abbrev pub with_order : Bytes → Option ℤ → Option Part
with_order d none = none
with_order d (some n) =
    if has_prefix d (codes "d=")
    then some (record { order = n; chunk = trim_prefix d (codes "d=") })
    else none

-- A text of the form `p=N,a=…,d=chunk`.
unfoldable pub numbered_part : Bytes → Option Part
unfolding first_and_third atoi
numbered_part txt =
    if has_prefix txt (codes "p=")
    then elim (first_and_third txt) [
      | none ↦ none
      | some p ↦ with_order p.1 (atoi (trim_prefix p.0 (codes "p=")))
    ]
    else none

-- The parts, and whether none of them is numbered.
abbrev pub add_part : Bytes → ℕ → Option Part → Part × Bool
add_part txt n none = (record { order = ℤ.pos n; chunk = txt }, true)
add_part txt n (some p) = (p, false)

unfoldable pub read_parts : List Bytes → ℕ → List Part × Bool
unfolding numbered_part is_empty
read_parts [] n = ([], true)
read_parts (t ∷ ts) n =
    let skipped = read_parts ts n in
    let rest = read_parts ts (n + 1) in
    let txt = trim_space t in
    let p = add_part txt n (numbered_part txt) in
    if is_empty txt then skipped else (p.0 ∷ rest.0, p.1 && rest.1)

abbrev pub before : ℤ → ℤ → Bool
before (ℤ.pos a) (ℤ.pos b) = ltb a b
before (ℤ.pos a) (ℤ.negsuc b) = false
before (ℤ.negsuc a) (ℤ.pos b) = true
before (ℤ.negsuc a) (ℤ.negsuc b) = ltb b a

-- `sort.Slice`, which inserts one by one where there are at most twelve parts.
unfoldable pub insert_part : Part → List Part → List Part
insert_part p [] = p ∷ []
insert_part p (q ∷ qs) =
    let rest = insert_part p qs in if before q.order p.order then q ∷ rest else p ∷ q ∷ qs

unfoldable pub sort_parts : List Part → List Part
unfolding insert_part
sort_parts [] = []
sort_parts (p ∷ ps) = insert_part p (sort_parts ps)

unfoldable pub chunks : List Part → Bytes
chunks [] = []
chunks (p ∷ ps) = p.chunk ++ chunks ps

unfoldable pub parse_pub_key_txt : List Bytes → Bytes
unfolding read_parts sort_parts chunks
parse_pub_key_txt txts =
    let read = read_parts txts 0 in if read.1 then chunks read.0 else chunks (sort_parts read.0)

abbrev pub or_bad_signature : {A : Type 0} → Option A → Processed A
or_bad_signature none = bad bad_signature
or_bad_signature (some a) = good a

-- `none` of `lookup` is an error of the resolver.
unfoldable pub verify_signature :
    {K : Type 0}
    → Crypto K
    → Bytes
    → Bytes
    → Bytes
    → Bytes
    → (Bytes → Option (List Bytes))
    → Processed (Unit {0})
unfolding parse_pub_key_txt is_empty
verify_signature c qs sig key_host key_domain lookup = do
  refuse_if (is_empty sig) bad_signature
  refuse_if (is_empty key_host) bad_signature
  refuse_if (is_empty key_domain) bad_signature
  txts ← or_bad_signature (lookup (key_host ++ (dot ++ key_domain)))
  refuse_if (is_empty (parse_pub_key_txt txts)) bad_signature
  der ← or_bad_signature (c.decode_base64 (parse_pub_key_txt txts))
  key ← or_bad_signature (c.parse_key der)
  raw ← or_bad_signature (c.decode_base64 sig)
  refuse_if (not (c.verify key (c.sum256 qs) raw)) bad_signature
