-- ===== src/Api/Stateful/Lifecycle/Reachable.antt =====
-- Every migration that can be reached is at a stage.
use dns_entree.Base.{ℕ, ◌≡◌, refl, sym, subst, List, [], ◌∷◌, ◌++◌, All, some}
use dns_entree.Text.{Bytes}
use dns_entree.Migrate.Store.{read_row, Dir}
use dns_entree.Api.Stateful.{Body, Migration, Handled, answer, refuse, Backend, work}
use dns_entree.Api.Stateful.Auth.{load_and_auth-IsAuthorized}
use dns_entree.Api.Stateful.Preview.{PreviewRequest, Setting, preview_row}
use dns_entree.Api.Stateful.Preview.Stored.{
  IsPreviewed, unchanged, stored, handle_preview-IsPreviewed,
}
use dns_entree.Api.Stateful.Lifecycle.{
  Pending, loaded_row, claimed, Server, after_claim, Step, preview, load, claiming, finishing,
  verifying, deleting, sweeping, Reach, here, next,
}
use dns_entree.Api.Stateful.Lifecycle.Stages.{
  previewed, IsStaged, AllStaged, read_row-IsStaged, write_row-AllStaged, sweep_expired-AllStaged,
  delete-AllStaged,
}
use dns_entree.Api.Stateful.Lifecycle.Writes.{
  IfAnswer, row_of, Ended-IsStaged, work-Ended, finish-AllStaged, claim-Claimed, verify-AllStaged,
}

abbrev IsSound : {C : Type 0} → Pending C → Type 0
IsSound (loaded_row row) = IsStaged row
IsSound (claimed row c) = row.version ≡ 2

-- The rows of the store and of the requests on their way are at a stage.
pub record IsConsistent {C : Type 0} (s : Server C) : Type 0 where
  pub rows : AllStaged s.store
  pub requests : All IsSound s.pending

-- A request on its way, out of the others.
chosen_request :
    {C : Type 0} (before after : List (Pending C)) (p : Pending C)
    → All IsSound (before ++ (p ∷ after))
    → IsSound p × All IsSound (before ++ after)
chosen_request [] after p (h, hs) = (h, hs)
chosen_request (q ∷ before) after p (h, hs) =
    let (hp, rest) = chosen_request before after p hs in (hp, (h, rest))

claimed_request :
    {C : Type 0} (o : Handled (Migration × C)) (ps : List (Pending C))
    → IfAnswer (λ p. p.0.version ≡ 2) o
    → All IsSound ps
    → All IsSound (after_claim o ps)
claimed_request (refuse e) ps v h = h
claimed_request (answer (row, c)) ps v h = (v, h)

module _ {C W : Type 0} (b : Backend C W) where
  previewed_store :
      (e : Setting C) (fuel now : ℕ) (req : PreviewRequest C) (d : Dir Body)
      (o : Handled Migration × Dir Body)
      → IsPreviewed b e fuel now req d o
      → AllStaged d
      → AllStaged o.1
  unfolding preview_row
  previewed_store e fuel now req d o (unchanged x) h = h
  previewed_store e fuel now req d o (stored row p) h =
      write_row-AllStaged row d (subst IsStaged (sym p.fields) (previewed refl refl)) h

  Step-IsConsistent : {s t : Server C} → Step b s t → IsConsistent s → IsConsistent t
  Step-IsConsistent (preview {d} e fuel now req h q) i = record {
    rows =
        previewed_store e fuel now req d _ (handle_preview-IsPreviewed b e fuel now req d _ q)
          i.rows;
    requests = i.requests;
  }
  Step-IsConsistent (load now id header row q) i = record {
    rows = i.rows;
    requests = (
      read_row-IsStaged id _ row i.rows (load_and_auth-IsAuthorized now id header _ row q).stands,
      i.requests,
    );
  }
  Step-IsConsistent (claiming {d} before after now row) i =
      let (h, rest) = chosen_request before after (loaded_row row) i.requests in
      let (rows, fits) = claim-Claimed b now row d h i.rows in
      record { rows = rows; requests = claimed_request _ _ fits rest }
  Step-IsConsistent (finishing {d} before after now row c w) i =
      let (h, rest) = chosen_request before after (claimed row c) i.requests in
      record {
        rows =
            finish-AllStaged b now _ d
              (Ended-IsStaged row (row_of (work b row c w).0) h (work-Ended b row c w)) i.rows;
        requests = rest;
      }
  Step-IsConsistent (verifying {d} before after verify now row) i =
      let (h, rest) = chosen_request before after (loaded_row row) i.requests in
      record { rows = verify-AllStaged verify now row d h i.rows; requests = rest }
  Step-IsConsistent (deleting {d} id) i = record {
    rows = delete-AllStaged id d i.rows;
    requests = i.requests;
  }
  Step-IsConsistent (sweeping {d} before) i = record {
    rows = sweep_expired-AllStaged before d i.rows;
    requests = i.requests;
  }

  pub Reach-IsConsistent : {s t : Server C} → IsConsistent s → Reach b s t → IsConsistent t
  Reach-IsConsistent h here = h
  Reach-IsConsistent h (next r st) = Step-IsConsistent st (Reach-IsConsistent h r)

  -- Whatever requests came, in any order and with others between their calls of the store: a
  -- migration that stands is a preview at version 1, is being applied at version 2, awaits the change
  -- of name servers or has failed at version 3, or was verified, to be verifying or complete, at a
  -- version from 3 on.
  pub reached_row-IsStaged :
      {t : Server C} (id : Bytes) (row : Migration)
      → Reach b (record { store = []; pending = [] }) t
      → read_row id t.store ≡ some row
      → IsStaged row
  reached_row-IsStaged {t} id row r h =
      read_row-IsStaged id t.store row
        (Reach-IsConsistent (record { rows = tt; requests = tt }) r).rows h
