-- ===== src/Migrate/Crypt.antt =====
-- crypt.go: the state key, and the sealing of credentials. AES-GCM, SHA-256, the random bytes and the
-- environment are parameters.
use dns_entree.Base.{
  ℕ, ◌+◌, ◌-◌, ◌*◌, ◌≡◌, refl, ap, subst, true, false, ◌&&◌, not, [], ◌∷◌, ◌++◌, Option, none, some,
  if◌then◌else◌, length, length-append, take, drop, ltb, leb, ◌==◌, arith,
}
use dns_entree.Text.{Bytes, codes}
use dns_entree.Record.Errors.{other, Result, ok, err, IfOk, if_ok, if-IfOk, bind-IfOk, ◌>>=◌}
use dns_entree.Template.Names.{is_empty}

-- The value of a hexadecimal digit.
unfoldable pub hex_digit : ℕ → Option ℕ
hex_digit c =
    if leb b'0' c && leb c b'9'
    then some (c - b'0')
    else if leb b'a' c && leb c b'f'
    then some (c - b'a' + 10)
    else if leb b'A' c && leb c b'F'
    then some (c - b'A' + 10)
    else none

abbrev pub add_byte : Option ℕ → Option ℕ → Result Bytes → Result Bytes
add_byte none low rest = err (other (codes "invalid byte"))
add_byte (some h) none rest = err (other (codes "invalid byte"))
add_byte (some h) (some l) (err e) = err e
add_byte (some h) (some l) (ok bs) = ok ((h * 16 + l) ∷ bs)

-- `hex.DecodeString`.
unfoldable pub hex_decode : Bytes → Result Bytes
unfolding hex_digit
hex_decode [] = ok []
hex_decode (c ∷ []) = err (other (codes "odd length hex string"))
hex_decode (c ∷ d ∷ s) = add_byte (hex_digit c) (hex_digit d) (hex_decode s)

-- `LoadStateKey` on the value of the variable: nothing where it is not set.
unfoldable pub load_state_key : Bytes → Result (Option Bytes)
unfolding is_empty hex_decode
load_state_key raw = if is_empty raw then ok none else (do
  key ← hex_decode raw
  if length key == 32 then ok (some key) else err (other (codes "must decode to 32 bytes")))

-- The state directory as far as `DeriveStateKey` reads it: the salt, once it was written.
unfoldable pub derive_state_key :
    (hash : Bytes → Bytes) (hostname random : Bytes) → Option Bytes → Bytes × Option Bytes
derive_state_key hash hostname random (some salt) = (hash (hostname ++ 0 ∷ salt), some salt)
derive_state_key hash hostname random none = (hash (hostname ++ 0 ∷ random), some random)

-- AES-GCM: what `Seal` gives, and what `Open` accepts.
pub record Aead : Type 0 where
  pub nonce_size : ℕ
  pub seal : (key nonce plain : Bytes) → Bytes
  pub unseal : (key nonce sealed : Bytes) → Option Bytes

unfoldable pub encrypt_creds : Aead → (nonce key plaintext : Bytes) → Result Bytes
encrypt_creds aead nonce key plaintext =
    if not (length key == 32)
    then err (other (codes "key must be 32 bytes"))
    else ok (nonce ++ aead.seal key nonce plaintext)

abbrev opened : Option Bytes → Result Bytes
opened none = err (other (codes "decrypt"))
opened (some p) = ok p

unfoldable pub decrypt_creds : Aead → (key blob : Bytes) → Result Bytes
decrypt_creds aead key blob =
    if not (length key == 32)
    then err (other (codes "key must be 32 bytes"))
    else if ltb (length blob) aead.nonce_size
    then err (other (codes "ciphertext too short"))
    else opened (aead.unseal key (take aead.nonce_size blob) (drop aead.nonce_size blob))

take-append : (xs ys : Bytes) → take (length xs) (xs ++ ys) ≡ xs
take-append [] ys = refl
take-append (x ∷ xs) ys = ap (λ zs. x ∷ zs) (take-append xs ys)

drop-append : (xs ys : Bytes) → drop (length xs) (xs ++ ys) ≡ ys
drop-append [] ys = refl
drop-append (x ∷ xs) ys = drop-append xs ys

-- A key that was loaded has 32 bytes.
abbrev KeySize : Option Bytes → Type 0
KeySize none = Unit
KeySize (some key) = (length key == 32) ≡ true

load_state_key-size : (raw : Bytes) → IfOk KeySize (load_state_key raw)
unfolding load_state_key
load_state_key-size raw =
    if-IfOk KeySize (is_empty raw) _ _ (λ y. tt)
      (λ n.
        bind-IfOk KeySize (hex_decode raw) _
          (λ key. if-IfOk KeySize (length key == 32) _ _ (λ y. y) (λ m. tt)))

pub decrypt-encrypt :
    (aead : Aead) (nonce key plaintext : Bytes)
    → (length key == 32) ≡ true
    → length nonce ≡ aead.nonce_size
    → aead.unseal key nonce (aead.seal key nonce plaintext) ≡ some plaintext
    → (encrypt_creds aead nonce key plaintext >>= decrypt_creds aead key) ≡ ok plaintext
unfolding encrypt_creds decrypt_creds
decrypt-encrypt aead nonce key plaintext k n law =
    let sealed = aead.seal key nonce plaintext in
    let blob = nonce ++ sealed in
    let long : ltb (length blob) aead.nonce_size ≡ false =
      ground (arith, n, length-append nonce sealed) in
    let e : aead.unseal key (take aead.nonce_size blob) (drop aead.nonce_size blob)
        ≡ some plaintext =
      subst (λ m. aead.unseal key (take m blob) (drop m blob) ≡ some plaintext) n
        (rw (take-append nonce sealed, drop-append nonce sealed) law) in
    rw k (rw k (rw long (ap opened e)))

-- Credentials that are sealed with a key that was loaded open again to themselves, where a nonce has
-- the size that the cipher asks for, and the cipher opens what it sealed.
pub creds-round_trip :
    (aead : Aead) (raw nonce key plaintext : Bytes)
    → load_state_key raw ≡ ok (some key)
    → length nonce ≡ aead.nonce_size
    → aead.unseal key nonce (aead.seal key nonce plaintext) ≡ some plaintext
    → (encrypt_creds aead nonce key plaintext >>= decrypt_creds aead key) ≡ ok plaintext
creds-round_trip aead raw nonce key plaintext h n law =
    decrypt-encrypt aead nonce key plaintext
      (if_ok KeySize (load_state_key raw) (some key) (load_state_key-size raw) h) n law
