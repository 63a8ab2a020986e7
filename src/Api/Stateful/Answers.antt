-- ===== src/Api/Stateful/Answers.antt =====
-- What verify and get answer.
use dns_entree.Base.{ℕ, ◌+◌, ◌≡◌, refl, sym, ap, Bool, true, false, [], if◌then◌else◌}
use dns_entree.Text.{Bytes}
use dns_entree.Migrate.Store.{Dir, update}
use dns_entree.Api.Stateful.{
  Body, Migration, conflict, Handled, answer, refuse, load_and_auth, moved, after_update, VerifyNs,
  is_verifiable, verified_status, verify_loaded, handle_verify, handle_get, redact_creds,
  get_loaded,
}
use dns_entree.Api.Stateful.Updates.{not_answered, updated_parts}
use dns_entree.Api.Stateful.Auth.{IsAuthorized, load_and_auth-IsAuthorized}

-- A verification that is answered.
pub record IsVerified (verify : VerifyNs) (row row' : Migration) : Type 0 where
  pub before : is_verifiable row.status ≡ true
  pub after :
      row'.status ≡ verified_status (verify row.body.target_nameservers row.body.preview_records)
  pub version : row'.version ≡ row.version + 1
  pub body : row'.body ≡ row.body

-- Where verify answers, the request was let in, the migration was being applied or had been, and its
-- next status is complete where all of at least one record match, and verifying otherwise.
pub handle_verify-IsVerified :
    (verify : VerifyNs) (now : ℕ) (id header : Bytes) (d e : Dir Body) (row' : Migration)
    → handle_verify verify now id header d ≡ (answer row', e)
    → (row : Migration) × IsAuthorized now id header d row × IsVerified verify row row'
unfolding handle_verify moved
handle_verify-IsVerified verify now id header d e row' h = go (load_and_auth now id header d) refl h
  where
    Found : Type 0
    Found = (row : Migration) × IsAuthorized now id header d row × IsVerified verify row row'

    next_of : Migration → Migration
    next_of row =
        moved (verified_status (verify row.body.target_nameservers row.body.preview_records)) row

    admitted :
        (row : Migration)
        → load_and_auth now id header d ≡ answer row
        → (x : Bool) → is_verifiable row.status ≡ x
        → (if◌then◌else◌ {A = Handled Migration × Dir Body} x
            (after_update (next_of row) (update false now (next_of row) d))
            (refuse conflict, d))
          ≡ (answer row', e)
        → Found
    admitted row l true v q =
        let (same, _) = updated_parts (next_of row) row' (update false now (next_of row) d) e q in
        (
          row,
          load_and_auth-IsAuthorized now id header d row l,
          record {
            before = v;
            after = sym (ap (λ (x : Migration). x.status) same);
            version = sym (ap (λ (x : Migration). x.version) same);
            body = sym (ap (λ (x : Migration). x.body) same);
          },
        )
    admitted row l false v q = absurd (not_answered _ _ (ap (λ x. x.0) q))

    go :
        (o : Handled Migration)
        → load_and_auth now id header d ≡ o
        → verify_loaded verify now d o ≡ (answer row', e)
        → Found
    go (refuse x) l q = absurd (not_answered _ _ (ap (λ x. x.0) q))
    go (answer row) l q = admitted row l (is_verifiable row.status) refl q

-- What get shows is the row of a request that was let in, without its token and its credentials.
pub handle_get-IsAuthorized :
    (now : ℕ) (id header : Bytes) (d : Dir Body) (r : Migration)
    → handle_get now id header d ≡ answer r
    → (row : Migration) × IsAuthorized now id header d row
      × (r ≡ redact_creds row)
      × (r.body.access_token ≡ [])
      × (r.body.credential_blob ≡ [])
unfolding handle_get redact_creds
handle_get-IsAuthorized now id header d r h = go (load_and_auth now id header d) refl h
  where
    Shown : Type 0
    Shown =
        (row : Migration) × IsAuthorized now id header d row
        × (r ≡ redact_creds row)
        × (r.body.access_token ≡ [])
        × (r.body.credential_blob ≡ [])

    same : (a : Migration) → answer a ≡ answer r → a ≡ r
    same a q = cc

    go :
        (o : Handled Migration)
        → load_and_auth now id header d ≡ o
        → get_loaded o ≡ answer r
        → Shown
    go (refuse x) l q = absurd (not_answered _ _ q)
    go (answer row) l q =
        let e = same (redact_creds row) q in
        (
          row,
          load_and_auth-IsAuthorized now id header d row l,
          sym e,
          ap (λ (x : Migration). x.body.access_token) (sym e),
          ap (λ (x : Migration). x.body.credential_blob) (sym e),
        )
