-- ===== src/Migrate/Tests.antt =====
-- Runs of the store, and its theorems at concrete rows.
use dns_entree.Base.{◌≡◌, refl, false, List, [], ◌∷◌, ◌++◌, ◌+◌, none, some, length, drop}
use dns_entree.Text.{Bytes, codes, str_eq}
use dns_entree.Record.Errors.{ok, ◌>>=◌}
use dns_entree.Migrate.Crypt.{
  Aead, load_state_key, derive_state_key, encrypt_creds, decrypt_creds, creds-round_trip,
}
use dns_entree.Migrate.Store.{
  Row, Dir, ListFilter, done, refused, version_mismatch, read_row, update, list, sweep_expired,
}
use dns_entree.Migrate.Store.Locking.{
  stay, step, updated, Later, Steps-Later, update-overwrites_read,
}
use dns_entree.Migrate.Store.Listing.{IsPage, list-IsPage, IsSwept, sweep_expired-IsSwept}
use dns_entree.Migrate.Store.Served.{Call, create_call, update_call, get_call, delete_call}

abbrev row : Row Bytes
row = record {
  id = codes "m1";
  tenant_id = codes "t";
  status = codes "preview";
  expires_at = 50;
  version = 1;
  created_at = 5;
  updated_at = 5;
  body = codes "zone";
}

abbrev other : Row Bytes
other = record row { id = codes "m2"; created_at = 3; expires_at = 20 }

abbrev dir : Dir Bytes
dir = (codes "m1", row) ∷ (codes "m2", other) ∷ []

abbrev applying : Row Bytes
applying = record row { status = codes "applying"; version = 2 }

-- Two clients that read the same row: the second update is refused.
second_update :
    (update false 8 applying (update false 7 applying dir).1).0 ≡ refused version_mismatch
unfolding update str_eq
second_update = refl

update-Later : Later (codes "m1") row (update false 7 applying dir).1
unfolding read_row str_eq
update-Later =
    Steps-Later (codes "m1") row dir (update false 7 applying dir).1
      (step (updated false 7 applying dir) (stay (update false 7 applying dir).1)) refl

update-overwrites_read_example : read_row (codes "m1") dir ≡ some row
unfolding update str_eq
update-overwrites_read_example =
    update-overwrites_read row applying dir dir false 7 refl (stay dir) refl refl

abbrev all_rows : ListFilter
all_rows = record { tenant_id = []; status = []; limit = 0; offset = 0 }

list_run : list false 10 all_rows dir ≡ done (other ∷ row ∷ [])
unfolding list
list_run = refl

list_case : IsPage 10 all_rows dir (other ∷ row ∷ [])
list_case = list-IsPage 10 all_rows dir (other ∷ row ∷ []) list_run

sweep_run : sweep_expired false 30 dir ≡ (done 1, (codes "m1", row) ∷ [])
unfolding sweep_expired
sweep_run = refl

sweep_expired_case : IsSwept 30 dir 1 ((codes "m1", row) ∷ [])
sweep_expired_case = sweep_expired-IsSwept 30 dir ((codes "m1", row) ∷ []) 1 sweep_run

-- A client creates a row, another one updates it, and a stale update is refused.
abbrev calls : List (Call Bytes)
calls =
    create_call false 5 (record row { version = 0 })
    ∷ update_call false 7 applying
    ∷ update_call false 8 applying
    ∷ delete_call false (codes "m2")
    ∷ get_call false 9 (codes "m1")
    ∷ []

-- A cipher that seals by writing the key and the nonce in front.
abbrev in_front : Aead
in_front = record {
  nonce_size = 2;
  seal = λ key nonce plain. key ++ (nonce ++ plain);
  unseal = λ key nonce sealed. some (drop (length key + length nonce) sealed);
}

abbrev raw_key : Bytes
raw_key = codes "00112233445566778899aabbccddeeff00112233445566778899AABBCCDDEEFF"

abbrev key : Bytes
key =
    0 ∷ 17 ∷ 34 ∷ 51 ∷ 68 ∷ 85 ∷ 102 ∷ 119 ∷ 136 ∷ 153 ∷ 170 ∷ 187 ∷ 204 ∷ 221 ∷ 238 ∷ 255 ∷ 0 ∷ 17
    ∷ 34 ∷ 51 ∷ 68 ∷ 85 ∷ 102 ∷ 119 ∷ 136 ∷ 153 ∷ 170 ∷ 187 ∷ 204 ∷ 221 ∷ 238 ∷ 255 ∷ []

key_run : load_state_key raw_key ≡ ok (some key)
unfolding load_state_key
key_run = refl

creds_case :
    (encrypt_creds in_front (1 ∷ 2 ∷ []) key (codes "token") >>= decrypt_creds in_front key)
    ≡ ok (codes "token")
creds_case = creds-round_trip in_front raw_key (1 ∷ 2 ∷ []) key (codes "token") key_run refl refl

-- The second call finds the salt of the first one.
derive_run :
    derive_state_key
      (λ s. s)
      (codes "h")
      (9 ∷ [])
      (derive_state_key (λ s. s) (codes "h") (7 ∷ []) none).1
    ≡ (codes "h" ++ 0 ∷ 7 ∷ [], some (7 ∷ []))
unfolding derive_state_key
derive_run = refl
