-- ===== src/Api/Stateful/Updates.antt =====
-- The updates of the handlers: what one that succeeds leaves, and when one is refused.
use dns_entree.Base.{
  ℕ, ◌+◌, ◌≤◌, ◌≡◌, refl, ap, ◌∙◌, subst, Bool, true, false, Option, none, some, if◌then◌else◌,
  arith, ◌==◌,
}
use dns_entree.Template.Names.{is_empty}
use dns_entree.Migrate.Store.{
  Dir, Answer, done, refused, cancelled, missing_id, already_exists, not_found, version_mismatch,
  expired, update, read_row, update_found, write_row,
}
use dns_entree.Migrate.Store.Rows.{read_row-write_row}
use dns_entree.Api.Stateful.{Body, Migration, Refusal, answer, refuse, after_update}

-- An update that follows on an older version than the one that stands is refused, and changes nothing.
pub stale_update :
    (now : ℕ) (m r : Migration) (d : Dir Body)
    → is_empty m.id ≡ false
    → read_row m.id d ≡ some r
    → m.version ≤ r.version
    → update false now m d ≡ (refused version_mismatch, d)
unfolding update
stale_update now m r d i h v = rw i (
    ap (update_found now m d) h
    ∙ ap
        (λ x.
          if◌then◌else◌ {A = Answer (Unit {0}) × Dir Body} x
            (done tt, write_row (record m { created_at = r.created_at; updated_at = now }) d)
            (refused version_mismatch, d))
        apart)
  where
    apart : (r.version + 1 == m.version) ≡ false
    apart = ground arith

pub not_answered {ℓ} : {A : Type ℓ} (e : Refusal) (a : A) → refuse e ≡ answer a → ⊥
not_answered e a h = cc

pub updated_parts {ℓ} :
    {A : Type ℓ} (a r : A) (u : Answer (Unit {0}) × Dir Body) (e : Dir Body)
    → after_update a u ≡ (answer r, e)
    → (a ≡ r) × (u ≡ (done tt, e))
updated_parts a r (done _, d) e h =
    let same : answer a ≡ answer r = ap (λ x. x.0) h in
    let there : d ≡ e = ap (λ x. x.1) h in (cc, ap (λ x. (done tt, x)) there)
updated_parts a r (refused version_mismatch, d) e h = absurd (not_answered _ _ (ap (λ x. x.0) h))
updated_parts a r (refused cancelled, d) e h = absurd (not_answered _ _ (ap (λ x. x.0) h))
updated_parts a r (refused missing_id, d) e h = absurd (not_answered _ _ (ap (λ x. x.0) h))
updated_parts a r (refused already_exists, d) e h = absurd (not_answered _ _ (ap (λ x. x.0) h))
updated_parts a r (refused not_found, d) e h = absurd (not_answered _ _ (ap (λ x. x.0) h))
updated_parts a r (refused expired, d) e h = absurd (not_answered _ _ (ap (λ x. x.0) h))

-- The row stands as it was written.
pub written_row :
    (now : ℕ) (m : Migration) (d e : Dir Body)
    → update false now m d ≡ (done tt, e)
    → (s : Migration) × (read_row m.id e ≡ some s)
      × (s.version ≡ m.version)
      × (is_empty m.id ≡ false)
unfolding update
written_row now m d e h = go (is_empty m.id) refl (read_row m.id d) h
  where
    Written : Type 0
    Written =
        (s : Migration) × (read_row m.id e ≡ some s)
        × (s.version ≡ m.version)
        × (is_empty m.id ≡ false)

    stored :
        (old : Migration)
        → is_empty m.id ≡ false
        → (x : Bool)
        → (if◌then◌else◌ {A = Answer (Unit {0}) × Dir Body} x
            (done tt, write_row (record m { created_at = old.created_at; updated_at = now }) d)
            (refused version_mismatch, d))
          ≡ (done tt, e)
        → Written
    stored old i true q =
        let m' : Migration = record m { created_at = old.created_at; updated_at = now } in
        (
          m',
          subst (λ x. read_row m.id x ≡ some m') (ap (λ x. x.1) q) (read_row-write_row m' d),
          refl,
          i,
        )
    stored old i false q = let no : refused version_mismatch ≡ done tt = ap (λ x. x.0) q in cc

    go :
        (x : Bool)
        → is_empty m.id ≡ x
        → (o : Option Migration)
        → (if◌then◌else◌ {A = Answer (Unit {0}) × Dir Body} x
            (refused missing_id, d)
            (update_found now m d o))
          ≡ (done tt, e)
        → Written
    go true i o q = let no : refused missing_id ≡ done tt = ap (λ x. x.0) q in cc
    go false i none q = let no : refused not_found ≡ done tt = ap (λ x. x.0) q in cc
    go false i (some old) q = stored old i (old.version + 1 == m.version) q
