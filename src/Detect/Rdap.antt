-- ===== src/Detect/Rdap.antt =====
-- detect.go: the RDAP servers that are asked for a registrar, and how their answers are read. The
-- request and the decoding of its JSON are a parameter.
use dns_entree.Base.{◌||◌, List, [], ◌∷◌, ◌++◌, Option, none, some, if◌then◌else◌, any, ◌==◌}
use dns_entree.Text.{Bytes, codes, str_eq}

-- One vCard field: its elements, `none` where an element is not a text.
abbrev pub Field : Type 0
Field = List (Option Bytes)

-- `vcard` is `none` where the entity has no second vCard element, or one that is no array of arrays.
pub record Entity : Type 0 where
  pub roles : List Bytes
  pub vcard : Option (List Field)

unfoldable pub after_last_dot : Bytes → Bytes → Bytes
after_last_dot [] best = best
after_last_dot (c ∷ s) best = if c == b'.' then after_last_dot s s else after_last_dot s best

unfoldable pub rdap_endpoints : Bytes → List Bytes
unfolding after_last_dot
rdap_endpoints domain =
    let tld = after_last_dot domain domain in
    if str_eq tld (codes "com") || str_eq tld (codes "net")
    then (codes "https://rdap.verisign.com/" ++ (tld ++ (codes "/v1/domain/" ++ domain))) ∷ []
    else if str_eq tld (codes "org")
    then (codes "https://rdap.org/domain/" ++ domain) ∷ []
    else if str_eq tld (codes "io")
    then (codes "https://rdap.nic.io/domain/" ++ domain) ∷ []
    else (codes "https://rdap.identitydigital.services/rdap/domain/" ++ domain)
      ∷ (codes "https://rdap.verisign.com/com/v1/domain/" ++ domain)
      ∷ (codes "https://rdap.org/domain/" ++ domain)
      ∷ []

-- The field is `fn` and its fourth element is a text that is not empty.
unfoldable pub name_in : Field → Option Bytes
name_in (some k ∷ a ∷ b ∷ some (c ∷ v) ∷ rest) =
    if str_eq k (codes "fn") then some (c ∷ v) else none
name_in _ = none

unfoldable pub first_name : List Field → Option Bytes
unfolding name_in
first_name [] = none
first_name (f ∷ fs) = elim (name_in f) [ none ↦ first_name fs | some v ↦ some v ]

abbrev pub name_of_card : Option (List Field) → Option Bytes
name_of_card none = none
name_of_card (some fs) = first_name fs

unfoldable pub registrar_in : List Entity → Option Bytes
unfolding first_name
registrar_in [] = none
registrar_in (e ∷ es) =
    let rest = registrar_in es in
    if any (str_eq (codes "registrar")) e.roles
    then elim (name_of_card e.vcard) [ none ↦ rest | some v ↦ some v ]
    else rest

-- The entities of the answer to a request, `none` on any failure.
abbrev pub Fetch : Type 0
Fetch = Bytes → Option (List Entity)

abbrev pub registrar_of_answer : Option (List Entity) → Option Bytes
registrar_of_answer none = none
registrar_of_answer (some es) = registrar_in es

unfoldable pub try_endpoints : Fetch → List Bytes → Bytes
unfolding registrar_in
try_endpoints fetch [] = []
try_endpoints fetch (url ∷ urls) = elim (registrar_of_answer (fetch url)) [
  | none ↦ try_endpoints fetch urls
  | some v ↦ v
]

unfoldable pub lookup_registrar : Fetch → Bytes → Bytes
unfolding try_endpoints rdap_endpoints
lookup_registrar fetch domain = try_endpoints fetch (rdap_endpoints domain)
