-- ===== src/Api/Stateful/Auth.antt =====
-- Who may act on a migration.
use dns_entree.Base.{
  ℕ, ◌≡◌, refl, sym, ap, ◌∙◌, Bool, true, false, Option, none, some, if◌then◌else◌,
}
use dns_entree.Text.{Bytes, str_eq, str_eq_iff}
use dns_entree.Template.Names.{is_empty}
use dns_entree.Migrate.Store.{Dir, done, refused, expired, get, is_expired, read_row, get_found}
use dns_entree.Api.Stateful.{
  Body, Migration, unauthorized, gone, bad_request, answer, refuse, extract_bearer, check_token,
  loaded, load_and_auth,
}

-- The row stands under the id, has not expired, and its token is the one of the request.
pub record IsAuthorized (now : ℕ) (id header : Bytes) (d : Dir Body) (row : Migration)
    : Type 0 where
  pub stands : read_row id d ≡ some row
  pub fresh : is_expired now row ≡ false
  pub token : extract_bearer header ≡ row.body.access_token
  pub given : is_empty row.body.access_token ≡ false

token_parts :
    (token : Bytes) (row row' : Migration)
    → check_token token row ≡ answer row'
    → (is_empty token ≡ false) × ((token ≡ row.body.access_token) × (row ≡ row'))
unfolding check_token
token_parts token row row' h = go (is_empty token) refl (str_eq token row.body.access_token) refl h
  where
    go :
        (a : Bool)
        → is_empty token ≡ a
        → (c : Bool) → str_eq token row.body.access_token ≡ c
        → (if a then refuse unauthorized else if c then answer row else refuse unauthorized)
          ≡ answer row'
        → (is_empty token ≡ false) × ((token ≡ row.body.access_token) × (row ≡ row'))
    go true p c q k = cc
    go false p false q k = cc
    go false p true q k = (p, ((str_eq_iff token row.body.access_token).0 q, cc))

-- A request that is let in names a row that stands, has not expired and holds its bearer token, which
-- is not empty.
pub load_and_auth-IsAuthorized :
    (now : ℕ) (id header : Bytes) (d : Dir Body) (row : Migration)
    → load_and_auth now id header d ≡ answer row
    → IsAuthorized now id header d row
unfolding load_and_auth get
load_and_auth-IsAuthorized now id header d row h = go (is_empty id) (read_row id d) refl h
  where
    checked :
        (r : Migration)
        → read_row id d ≡ some r
        → is_expired now r ≡ false
        → check_token (extract_bearer header) r ≡ answer row
        → IsAuthorized now id header d row
    checked r e q k =
        let (given, (token, same)) = token_parts (extract_bearer header) r row k in
        record {
          stands = e ∙ ap some same;
          fresh = ap (is_expired now) (sym same) ∙ q;
          token = token ∙ ap (λ (x : Migration). x.body.access_token) same;
          given =
              ap is_empty (ap (λ (x : Migration). x.body.access_token) (sym same))
              ∙ (ap is_empty (sym token) ∙ given);
        }

    seen :
        (r : Migration)
        → read_row id d ≡ some r
        → (x : Bool) → is_expired now r ≡ x
        → loaded now (extract_bearer header) (if x then refused expired else done r) ≡ answer row
        → IsAuthorized now id header d row
    seen r e true q k = cc
    seen r e false q k =
        checked r e q
          (sym (ap (λ x. if x then refuse gone else check_token (extract_bearer header) r) q) ∙ k)

    go :
        (a : Bool) (o : Option Migration)
        → read_row id d ≡ o
        → (if a then refuse bad_request else loaded now (extract_bearer header) (get_found now o))
          ≡ answer row
        → IsAuthorized now id header d row
    go true o e k = cc
    go false none e k = cc
    go false (some r) e k = seen r e (is_expired now r) refl k
