-- ===== src/Api/Stateful/Lifecycle.antt =====
-- api/handlers_migrate_stateful.go: the requests as steps, in any order and with others in between.
-- A request of apply or verify loads its row, and goes on from that row in later steps.
pub mod Stages
pub mod Writes
pub mod Reachable
use dns_entree.Base.{ℕ, ◌≡◌, false, List, [], ◌∷◌, ◌++◌, some}
use dns_entree.Text.{Bytes}
use dns_entree.Migrate.Store.{Dir, delete, sweep_expired}
use dns_entree.Api.Stateful.{
  Body, Migration, Handled, answer, refuse, Backend, VerifyNs, load_and_auth, claim, work, finish,
  verify_loaded,
}
use dns_entree.Api.Stateful.Preview.{PreviewRequest, Setting, handle_preview}

-- A request on its way: with the row that it loaded, or with the migration that it claimed.
pub data Pending (C : Type 0) : Type 0 where
  loaded_row : Migration → Pending C
  claimed : Migration → C → Pending C

pub record Server (C : Type 0) : Type 0 where
  pub store : Dir Body
  pub pending : List (Pending C)

abbrev pub after_claim :
    {C : Type 0} → Handled (Migration × C) → List (Pending C) → List (Pending C)
after_claim (refuse e) ps = ps
after_claim (answer (row, c)) ps = claimed row c ∷ ps

module _ {C W : Type 0} (b : Backend C W) where
  pub data Step : Server C → Server C → Type 0 where
    preview :
        {d d' : Dir Body} {ps : List (Pending C)} (e : Setting C) (fuel now : ℕ)
        (req : PreviewRequest C) (h : Handled Migration)
        → handle_preview b e fuel now req d ≡ some (h, d')
        → Step (record { store = d; pending = ps }) (record { store = d'; pending = ps })
    load :
        {d : Dir Body} {ps : List (Pending C)} (now : ℕ) (id header : Bytes) (row : Migration)
        → load_and_auth now id header d ≡ answer row
        → Step
            (record { store = d; pending = ps })
            (record { store = d; pending = loaded_row row ∷ ps })
    claiming :
        {d : Dir Body} (before after : List (Pending C)) (now : ℕ) (row : Migration)
        → Step
            (record { store = d; pending = before ++ (loaded_row row ∷ after) })
            (record {
              store = (claim b now row d).1;
              pending = after_claim (claim b now row d).0 (before ++ after);
            })
    finishing :
        {d : Dir Body} (before after : List (Pending C)) (now : ℕ) (row : Migration) (c : C) (w : W)
        → Step
            (record { store = d; pending = before ++ (claimed row c ∷ after) })
            (record { store = (finish b now (work b row c w).0 d).1; pending = before ++ after })
    verifying :
        {d : Dir Body} (before after : List (Pending C)) (verify : VerifyNs) (now : ℕ)
        (row : Migration)
        → Step
            (record { store = d; pending = before ++ (loaded_row row ∷ after) })
            (record {
              store = (verify_loaded verify now d (answer row)).1;
              pending = before ++ after;
            })
    deleting :
        {d : Dir Body} {ps : List (Pending C)} (id : Bytes)
        → Step
            (record { store = d; pending = ps })
            (record { store = (delete false id d).1; pending = ps })
    sweeping :
        {d : Dir Body} {ps : List (Pending C)} (before : ℕ)
        → Step
            (record { store = d; pending = ps })
            (record { store = (sweep_expired false before d).1; pending = ps })

  pub data Reach (s : Server C) : Server C → Type 0 where
    here : Reach s s
    next : {t u : Server C} → Reach s t → Step t u → Reach s u
