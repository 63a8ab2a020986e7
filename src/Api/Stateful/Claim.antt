-- ===== src/Api/Stateful/Claim.antt =====
-- A migration is claimed once.
use dns_entree.Base.{
  ℕ, ◌≡◌, refl, sym, ap, Bool, true, false, Option, none, some, if◌then◌else◌, arith,
}
use dns_entree.Text.{codes, str_eq}
use dns_entree.Migrate.Store.{Dir, done, refused, version_mismatch, update}
use dns_entree.Migrate.Store.Locking.{Steps, Steps-Later}
use dns_entree.Api.Stateful.{
  Body, Migration, internal, conflict, Handled, answer, refuse, moved, after_update, Backend,
  claim_with, claim,
}
use dns_entree.Api.Stateful.Updates.{stale_update, not_answered, updated_parts, written_row}

module _ {C W : Type 0} (b : Backend C W) where
  pub claim_parts :
      (now : ℕ) (row row' : Migration) (c : C) (d e : Dir Body)
      → claim b now row d ≡ (answer (row', c), e)
      → (row' ≡ moved (codes "applying") row)
        × (update false now (moved (codes "applying") row) d ≡ (done tt, e))
  unfolding claim
  claim_parts now row row' c d e h =
      go (str_eq row.status (codes "preview")) (b.credentials row.body.credential_blob) h
    where
      next : Migration
      next = moved (codes "applying") row

      adapted :
          (k : C) (a : Bool)
          → (if◌then◌else◌ {A = Handled (Migration × C) × Dir Body} a
              (after_update (next, k) (update false now next d))
              (refuse internal, d))
            ≡ (answer (row', c), e)
          → (row' ≡ next) × (update false now next d ≡ (done tt, e))
      adapted k true q =
          let (same, u) = updated_parts (next, k) (row', c) (update false now next d) e q in
          (sym (ap (λ x. x.0) same), u)
      adapted k false q = absurd (not_answered _ _ (ap (λ x. x.0) q))

      go :
          (p : Bool) (o : Option C)
          → (if◌then◌else◌ {A = Handled (Migration × C) × Dir Body} p
              (claim_with b now row d o)
              (refuse conflict, d))
            ≡ (answer (row', c), e)
          → (row' ≡ next) × (update false now next d ≡ (done tt, e))
      go false o q = absurd (not_answered _ _ (ap (λ x. x.0) q))
      go true none q = absurd (not_answered _ _ (ap (λ x. x.0) q))
      go true (some k) q = adapted k (b.has_adapter row.body.target_slug) q

  -- The guards of a claim look at the row alone.
  claim_again :
      (now now' : ℕ) (row row' : Migration) (c : C) (d e f : Dir Body)
      → claim b now row d ≡ (answer (row', c), e)
      → update false now' (moved (codes "applying") row) f ≡ (refused version_mismatch, f)
      → claim b now' row f ≡ (refuse conflict, f)
  unfolding claim
  claim_again now now' row row' c d e f h u =
      go (str_eq row.status (codes "preview")) (b.credentials row.body.credential_blob) h
    where
      next : Migration
      next = moved (codes "applying") row

      Outcome : Type 0
      Outcome = Handled (Migration × C) × Dir Body

      adapted :
          (k : C) (a : Bool)
          → (if◌then◌else◌ {A = Outcome} a
              (after_update (next, k) (update false now next d))
              (refuse internal, d))
            ≡ (answer (row', c), e)
          → (if◌then◌else◌ {A = Outcome} a
              (after_update (next, k) (update false now' next f))
              (refuse internal, f))
            ≡ (refuse conflict, f)
      adapted k true q = ap (after_update (next, k)) u
      adapted k false q = absurd (not_answered _ _ (ap (λ x. x.0) q))

      go :
          (p : Bool) (o : Option C)
          → (if◌then◌else◌ {A = Outcome} p (claim_with b now row d o) (refuse conflict, d))
            ≡ (answer (row', c), e)
          → (if◌then◌else◌ {A = Outcome} p (claim_with b now' row f o) (refuse conflict, f))
            ≡ (refuse conflict, f)
      go false o q = refl
      go true none q = absurd (not_answered _ _ (ap (λ x. x.0) q))
      go true (some k) q = adapted k (b.has_adapter row.body.target_slug) q

  -- Two requests that loaded the same row: where one has claimed it, the other, after any creations,
  -- updates and deletions by others that do not delete the row, is refused with a conflict, and
  -- changes nothing.
  pub claim-once :
      (now now' : ℕ) (row row' : Migration) (c : C) (d e f : Dir Body)
      → claim b now row d ≡ (answer (row', c), e)
      → Steps row.id e f
      → claim b now' row f ≡ (refuse conflict, f)
  unfolding moved
  claim-once now now' row row' c d e f h steps =
      let (_, written) = claim_parts now row row' c d e h in
      let (s, stands, version, given) =
        written_row now (moved (codes "applying") row) d e written in
      let (t, last, later) = Steps-Later row.id s e f steps stands in
      claim_again now now' row row' c d e f h (
        stale_update now' (moved (codes "applying") row) t f given last
          (omega (arith, version, later.version)))
