-- ===== src/Api/Stateful/Lifecycle/Writes.antt =====
-- The rows that apply and verify write, by their stages.
use dns_entree.Base.{
  ℕ, ◌+◌, ◌≡◌, refl, sym, subst, false, ◌⊎◌, inl, inr, List, arith, Option, none, some, if_rule,
  Bool-cases,
}
use dns_entree.Text.{Bytes, codes, str_eq}
use dns_entree.Template.Names.{is_empty}
use dns_entree.Migrate.Store.{
  Dir, Answer, done, refused, cancelled, missing_id, already_exists, not_found, version_mismatch,
  expired, update,
}
use dns_entree.Api.Stateful.{
  Body, Migration, Handled, answer, refuse, internal, Attempt, succeeded, failed_with, Backend,
  VerifyNs, Worked, broken, applied, after_update, moved, failed_row, claim_with, claim, with_zone,
  with_results, Looped, push_all, zone_ensured, work, finish, verify_loaded, is_verifiable,
  verified_status,
}
use dns_entree.Api.Stateful.Lifecycle.Stages.{
  Stage, previewed, applying, broken_off, IsStaged, AllStaged, read_row-IsStaged,
  write_row-AllStaged, sweep_expired-AllStaged, delete-AllStaged, update-AllStaged,
  after_update_store, preview_first, verifiable_later, verified_stage,
}
use dns_entree.Api.Stateful.Lifecycle.Stages

abbrev pub IfAnswer {ℓ} : {A : Type ℓ} → (A → Type 0) → Handled A → Type 0
IfAnswer P (answer a) = P a
IfAnswer P (refuse e) = Unit

-- A row after an apply: one version on, and failed or waiting.
abbrev pub Ended : Migration → Migration → Type 0
Ended row m =
    (m.version ≡ row.version + 1)
    × ((m.status ≡ codes "failed") ⊎ (m.status ≡ codes "awaiting_ns_change"))

abbrev pub row_of : Worked → Migration
row_of (broken m) = m
row_of (applied m) = m

pub Ended-IsStaged : (row m : Migration) → row.version ≡ 2 → Ended row m → IsStaged m
Ended-IsStaged row m v (e, inl s) = broken_off (omega (arith, v, e)) s
Ended-IsStaged row m v (e, inr s) = Stages.applied (omega (arith, v, e)) s

after_update-IfAnswer {ℓ} :
    {A : Type ℓ} (P : A → Type 0) (a : A) (u : Answer (Unit {0}) × Dir Body)
    → P a
    → IfAnswer P (after_update a u).0
after_update-IfAnswer P a (done _, d) h = h
after_update-IfAnswer P a (refused version_mismatch, d) h = tt
after_update-IfAnswer P a (refused cancelled, d) h = tt
after_update-IfAnswer P a (refused missing_id, d) h = tt
after_update-IfAnswer P a (refused already_exists, d) h = tt
after_update-IfAnswer P a (refused not_found, d) h = tt
after_update-IfAnswer P a (refused expired, d) h = tt

module _ {C W : Type 0} (b : Backend C W) where
  results-Ended : (row : Migration) (l : Looped b) → Ended row (row_of (with_results b row l).0)
  unfolding with_results failed_row moved
  results-Ended row (rs, (first, w)) =
      if_rule (Ended row) (is_empty first) (moved (codes "awaiting_ns_change") written)
        (failed_row first written) (refl, inr refl) (refl, inl refl)
    where
      written : Migration
      written = record row { body = record row.body { apply_results = rs } }

  pushed-Ended :
      (row : Migration) (c : C) (w : W) (a : Attempt (Unit {0}))
      → Ended row (row_of (push_all b row c w a).0)
  unfolding failed_row moved
  pushed-Ended row c w (failed_with e) = (refl, inl refl)
  pushed-Ended row c w (succeeded _) = results-Ended row _

  zone-Ended :
      (row : Migration) (c : C) (z : Attempt (Bytes × List Bytes) × W)
      → Ended row (row_of (zone_ensured b row c z).0)
  unfolding failed_row moved with_zone
  zone-Ended row c (failed_with e, w) = (refl, inl refl)
  zone-Ended row c (succeeded z, w) = pushed-Ended (with_zone b z row) c w _

  pub work-Ended : (row : Migration) (c : C) (w : W) → Ended row (row_of (work b row c w).0)
  unfolding work
  work-Ended row c w = zone-Ended row c _

  pub finish-AllStaged :
      (now : ℕ) (o : Worked) (d : Dir Body)
      → IsStaged (row_of o)
      → AllStaged d
      → AllStaged (finish b now o d).1
  unfolding finish
  finish-AllStaged now (broken m) d h hd = update-AllStaged now m d h hd
  finish-AllStaged now (applied m) d h hd =
      subst AllStaged (sym (after_update_store m _)) (update-AllStaged now m d h hd)

  -- The store and the claimed row after a claim.
  abbrev pub Claimed : Handled (Migration × C) × Dir Body → Type 0
  Claimed o = AllStaged o.1 × IfAnswer (λ p. p.0.version ≡ 2) o.0

  updated-Claimed :
      (a : Migration × C) (u : Answer (Unit {0}) × Dir Body)
      → a.0.version ≡ 2
      → AllStaged u.1
      → Claimed (after_update a u)
  updated-Claimed a u v h = (
    subst AllStaged (sym (after_update_store a u)) h,
    after_update-IfAnswer (λ p. p.0.version ≡ 2) a u v,
  )

  pub claim-Claimed :
      (now : ℕ) (row : Migration) (d : Dir Body)
      → IsStaged row
      → AllStaged d
      → Claimed (claim b now row d)
  unfolding claim moved
  claim-Claimed now row d h hd = elim (Bool-cases (str_eq row.status (codes "preview"))) [
    | inl y ↦ rw y (
        with_credentials (preview_first row.version row.status h y)
          (b.credentials row.body.credential_blob))
    | inr n ↦ rw n (hd, tt)
  ]
    where
      next : Migration
      next = moved (codes "applying") row

      with_credentials : row.version ≡ 1 → (o : Option C) → Claimed (claim_with b now row d o)
      with_credentials v none = (hd, tt)
      with_credentials v (some c) =
          if_rule Claimed (b.has_adapter row.body.target_slug)
            (after_update (next, c) (update false now next d)) (refuse internal, d)
            (updated-Claimed (next, c) (update false now next d) (omega (arith, v))
              (update-AllStaged now next d (applying (omega (arith, v)) refl) hd))
            (hd, tt)

pub verify-AllStaged :
    (verify : VerifyNs) (now : ℕ) (row : Migration) (d : Dir Body)
    → IsStaged row
    → AllStaged d
    → AllStaged (verify_loaded verify now d (answer row)).1
unfolding moved
verify-AllStaged verify now row d h hd = elim (Bool-cases (is_verifiable row.status)) [
  | inl y ↦ rw y (
      subst AllStaged (sym (after_update_store next _)) (
        update-AllStaged now next d
          (verified_stage row.version found (verifiable_later row.version row.status h y)) hd))
  | inr n ↦ rw n hd
]
  where
    found : ℕ × ℕ
    found = verify row.body.target_nameservers row.body.preview_records

    next : Migration
    next = moved (verified_status found) row
