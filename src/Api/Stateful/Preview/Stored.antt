-- ===== src/Api/Stateful/Preview/Stored.antt =====
-- What a preview stores.
use dns_entree.Base.{
  ℕ, ◌≡◌, refl, sym, ap, ◌∙◌, subst, Bool, true, false, not, ◌||◌, Option, none, some,
  if◌then◌else◌, arith, ◌==◌, length, inl, inr, ◌⊎◌,
}
use dns_entree.Text.{Bytes}
use dns_entree.Record.Errors.{Result, ok, err, ◌>>=◌}
use dns_entree.Template.Names.{is_empty}
use dns_entree.Validate.{validate_dns_name}
use dns_entree.Migrate.Crypt.{encrypt_creds, decrypt_creds, decrypt-encrypt}
use dns_entree.Migrate.Scrape.{Zone}
use dns_entree.Migrate.Scrape.Total.{scrape_zone-Ends}
use dns_entree.Migrate.Store.{
  Dir, StoreError, Answer, done, refused, missing_id, already_exists, create, create_absent,
  read_row, write_row, stamped,
}
use dns_entree.Api.Stateful.{
  Body, Migration, Refusal, internal, bad_request, Handled, answer, refuse, Backend,
}
use dns_entree.Api.Stateful.Preview.{
  PreviewRequest, Setting, preview_row, store_sealed, store_marshalled, store_zone, zone_for,
  scrape_options, then_store, is_refused_request, handle_preview,
}

some_inj : (x y : Handled Migration × Dir Body) → some x ≡ some y → x ≡ y
some_inj x y h = cc

if_same {ℓ} : {A : Type ℓ} (x : Bool) (a : A) → (if x then a else a) ≡ a
if_same true a = refl
if_same false a = refl

create-cases :
    (now : ℕ) (m : Migration) (d : Dir Body)
    → ((x : StoreError) × (create false now m d ≡ (refused x, d)))
      ⊎ ((read_row m.id d ≡ none) × (create false now m d ≡ (done tt, write_row (stamped now m) d)))
unfolding create
create-cases now m d = go (is_empty m.id) (read_row m.id d) refl
  where
    go :
        (x : Bool) (o : Option Migration)
        → read_row m.id d ≡ o
        → let u =
            if◌then◌else◌ {A = Answer (Unit {0}) × Dir Body} x
              (refused missing_id, d)
              (create_absent now m d o) in
          ((x : StoreError) × (u ≡ (refused x, d)))
          ⊎ ((read_row m.id d ≡ none) × (u ≡ (done tt, write_row (stamped now m) d)))
    go true o h = inl (missing_id, refl)
    go false none h = inr (h, refl)
    go false (some old) h = inl (already_exists, refl)

module _ {C W : Type 0} (b : Backend C W) (e : Setting C) (fuel now : ℕ) (req : PreviewRequest C)
    (d : Dir Body) where
  -- The request was sound, and the row is new: it holds the zone that was given or scraped, as a
  -- preview of version 1, and its blob is the sealed credentials.
  pub record IsStored (row : Migration) : Type 0 where
    pub valid : validate_dns_name req.domain ≡ true
    pub adapted : b.has_adapter req.target ≡ true
    pub zone : Zone
    pub found : zone_for b e fuel req req.preloaded_zone ≡ some (ok zone)
    pub json : Bytes
    pub marshalled : e.marshal req.target_credentials ≡ some json
    pub sealed : encrypt_creds e.aead e.nonce e.migration_key json ≡ ok row.body.credential_blob
    pub fields : row ≡ preview_row b e now req zone row.body.credential_blob
    pub absent : read_row row.id d ≡ none

  -- A refusal leaves the store as it was.
  pub data IsPreviewed : Handled Migration × Dir Body → Type 0 where
    unchanged : (x : Refusal) → IsPreviewed (refuse x, d)
    stored : (row : Migration) → IsStored row → IsPreviewed (answer row, write_row row d)

  stamped-preview :
      (zone : Zone) (blob : Bytes)
      → stamped now (preview_row b e now req zone blob) ≡ preview_row b e now req zone blob
  unfolding stamped preview_row
  stamped-preview zone blob = ap (λ t. record row { created_at = t }) (if_same (now == 0) now)
    where
      row : Migration
      row = preview_row b e now req zone blob

  accepted : (w x y z : Bool) → (w || (not x || (y || not z))) ≡ false → (x ≡ true) × (z ≡ true)
  accepted w x y z h = ground arith

  module _ (sound : is_refused_request b e req ≡ false) where
    sound_parts : (validate_dns_name req.domain ≡ true) × (b.has_adapter req.target ≡ true)
    unfolding is_refused_request
    sound_parts = accepted (is_empty req.domain) _ (is_empty req.target) _ sound

    row-IsStored :
        (zone : Zone) (json blob : Bytes)
        → zone_for b e fuel req req.preloaded_zone ≡ some (ok zone)
        → e.marshal req.target_credentials ≡ some json
        → encrypt_creds e.aead e.nonce e.migration_key json ≡ ok blob
        → read_row (preview_row b e now req zone blob).id d ≡ none
        → IsStored (preview_row b e now req zone blob)
    unfolding preview_row
    row-IsStored zone json blob z j q a = record {
      valid = sound_parts.0;
      adapted = sound_parts.1;
      zone = zone;
      found = z;
      json = json;
      marshalled = j;
      sealed = q;
      fields = refl;
      absent = a;
    }

    sealed-IsPreviewed :
        (zone : Zone) (json : Bytes)
        → zone_for b e fuel req req.preloaded_zone ≡ some (ok zone)
        → e.marshal req.target_credentials ≡ some json
        → (r : Result Bytes) → encrypt_creds e.aead e.nonce e.migration_key json ≡ r
        → IsPreviewed (store_sealed b e now req zone d r)
    sealed-IsPreviewed zone json z j (err x) q = unchanged internal
    sealed-IsPreviewed zone json z j (ok blob) q = elim (create-cases now row d) [
      | inl (x, h) ↦ rw h (unchanged internal)
      | inr (a, h) ↦
          rw (h, stamped-preview zone blob) (stored row (row-IsStored zone json blob z j q a))
    ]
      where
        row : Migration
        row = preview_row b e now req zone blob

    marshalled-IsPreviewed :
        (zone : Zone)
        → zone_for b e fuel req req.preloaded_zone ≡ some (ok zone)
        → (j : Option Bytes) → e.marshal req.target_credentials ≡ j
        → IsPreviewed (store_marshalled b e now req zone d j)
    marshalled-IsPreviewed zone z none h = unchanged internal
    marshalled-IsPreviewed zone z (some json) h = sealed-IsPreviewed zone json z h _ refl

    zone-IsPreviewed :
        (r : Result Zone)
        → zone_for b e fuel req req.preloaded_zone ≡ some r
        → IsPreviewed (store_zone b e now req d r)
    zone-IsPreviewed (err x) h = unchanged internal
    zone-IsPreviewed (ok zone) h = marshalled-IsPreviewed zone h _ refl

    then-IsPreviewed :
        (r : Option (Result Zone)) (o : Handled Migration × Dir Body)
        → zone_for b e fuel req req.preloaded_zone ≡ r
        → then_store b e now req d r ≡ some o
        → IsPreviewed o
    then-IsPreviewed none o h q = cc
    then-IsPreviewed (some z) o h q = subst IsPreviewed (some_inj _ o q) (zone-IsPreviewed z h)

  -- A preview that is refused leaves the store as it was; one that is answered had a valid domain and
  -- a known target, and adds one row under an id that was free, in the status preview with version 1,
  -- which holds the zone that was given or scraped, and the credentials sealed with the server's key.
  pub handle_preview-IsPreviewed :
      (o : Handled Migration × Dir Body)
      → handle_preview b e fuel now req d ≡ some o
      → IsPreviewed o
  unfolding handle_preview
  handle_preview-IsPreviewed o h =
      by_guards (is_refused_request b e req) refl (length e.migration_key == 32) refl h
    where
      by_guards :
          (x : Bool)
          → is_refused_request b e req ≡ x
          → (y : Bool) → (length e.migration_key == 32) ≡ y
          → (if x
              then some (refuse bad_request, d)
              else if not y
              then some (refuse internal, d)
              else then_store b e now req d (zone_for b e fuel req req.preloaded_zone))
            ≡ some o
          → IsPreviewed o
      by_guards true p y q t = subst IsPreviewed (some_inj _ o t) (unchanged bad_request)
      by_guards false p false q t = subst IsPreviewed (some_inj _ o t) (unchanged internal)
      by_guards false p true q t = then-IsPreviewed p _ o refl t

-- Where a nonce has the size that the cipher asks for, and the cipher opens what it sealed, the blob
-- of the row opens to the credentials.
pub IsStored-opens :
    {C W : Type 0} (b : Backend C W) (e : Setting C) (fuel now : ℕ) (req : PreviewRequest C)
    (d : Dir Body) (row : Migration) (p : IsStored b e fuel now req d row)
    → (length e.migration_key == 32) ≡ true
    → length e.nonce ≡ e.aead.nonce_size
    → e.aead.unseal e.migration_key e.nonce (e.aead.seal e.migration_key e.nonce p.json)
      ≡ some p.json
    → decrypt_creds e.aead e.migration_key row.body.credential_blob ≡ ok p.json
IsStored-opens b e fuel now req d row p k n law =
    sym (ap (λ r. r >>= decrypt_creds e.aead e.migration_key) p.sealed)
    ∙ decrypt-encrypt e.aead e.nonce e.migration_key p.json k n law

-- Some fuel is enough for a preview.
pub handle_preview-Ends :
    {C W : Type 0} (b : Backend C W) (e : Setting C) (now : ℕ) (req : PreviewRequest C)
    (d : Dir Body)
    → (fuel : ℕ) × (o : Handled Migration × Dir Body) × (handle_preview b e fuel now req d ≡ some o)
unfolding handle_preview
handle_preview-Ends b e now req d =
    ended (is_refused_request b e req) (length e.migration_key == 32)
  where
    with_zone : (fuel : ℕ) × (r : Result Zone) × (zone_for b e fuel req req.preloaded_zone ≡ some r)
    with_zone = given req.preloaded_zone
      where
        given :
            (z : Option Zone) → (fuel : ℕ) × (r : Result Zone) × (zone_for b e fuel req z ≡ some r)
        given (some z) = (0, ok z, refl)
        given none = scrape_zone-Ends e.print e.servers req.domain (scrape_options req)

    ended :
        (x y : Bool)
        → (fuel : ℕ) × (o : Handled Migration × Dir Body) × ((if x
              then some (refuse bad_request, d)
              else if not y
              then some (refuse internal, d)
              else then_store b e now req d (zone_for b e fuel req req.preloaded_zone))
            ≡ some o)
    ended true y = (0, (refuse bad_request, d), refl)
    ended false false = (0, (refuse internal, d), refl)
    ended false true =
        let (fuel, r, h) = with_zone in
        (fuel, store_zone b e now req d r, ap (then_store b e now req d) h)
