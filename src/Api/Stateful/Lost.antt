-- ===== src/Api/Stateful/Lost.antt =====
-- What becomes of an apply when another request changes its row while it runs.
use dns_entree.Base.{
  ℕ, ◌+◌, ◌≡◌, refl, sym, ap, ◌∙◌, Bool, true, false, List, [], some, if◌then◌else◌, arith,
}
use dns_entree.Text.{Bytes, codes}
use dns_entree.Template.Names.{is_empty}
use dns_entree.Migrate.Store.{Dir, done, update, read_row}
use dns_entree.Migrate.Store.Locking.{update_parts}
use dns_entree.Api.Stateful.{
  Body, Migration, answer, refuse, conflict, Attempt, succeeded, failed_with, moved, after_update,
  Backend, claim, broken, applied, failed_row, with_zone, with_results, write_records, work, finish,
  push_all, zone_ensured,
}
use dns_entree.Api.Stateful.Claim.{claim_parts}
use dns_entree.Api.Stateful.Updates.{written_row, stale_update}

module _ {C W : Type 0} (b : Backend C W) where
  -- The row that the work leaves is the next version of the row that was claimed.
  abbrev Next : Migration → Migration → Type 0
  Next row r = (r.id ≡ row.id) × (r.version ≡ row.version + 1)

  work-Next :
      (row : Migration) (c : C) (w : W) (r : Migration)
      → (work b row c w).0 ≡ applied r
      → Next row r
  unfolding work with_results failed_row moved with_zone
  work-Next row c w r h = go (b.ensure_zone row.body.target_slug row.body.domain c w) h
    where
      same : (x : Migration) → applied x ≡ applied r → x ≡ r
      same x q = cc

      never : (x : Migration) → broken x ≡ applied r → ⊥
      never x q = cc

      status :
          (m : Migration) (msg : Bytes) (x : Bool)
          → m.id ≡ row.id
          → m.version ≡ row.version
          → (if x then moved (codes "awaiting_ns_change") m else failed_row msg m) ≡ r
          → Next row r
      status m msg true i v q = (
        sym (ap (λ (y : Migration). y.id) q) ∙ i,
        omega (arith, v, ap (λ (y : Migration). y.version) q),
      )
      status m msg false i v q = (
        sym (ap (λ (y : Migration). y.id) q) ∙ i,
        omega (arith, v, ap (λ (y : Migration). y.version) q),
      )

      provided :
          (z : Bytes × List Bytes) (v : W) (a : Attempt (Unit {0}))
          → (push_all b (with_zone b z row) c v a).0 ≡ applied r
          → Next row r
      provided z v (failed_with e) q = absurd (never _ q)
      provided z v (succeeded _) q =
          let l =
            write_records b row.body.target_slug c row.body.domain row.body.preview_records [] v in
          status (record row { body = record (with_zone b z row).body { apply_results = l.0 } })
            l.1.0 (is_empty l.1.0) refl refl (same _ q)

      go :
          (p : Attempt (Bytes × List Bytes) × W)
          → (zone_ensured b row c p).0 ≡ applied r
          → Next row r
      go (failed_with e, v) q = absurd (never _ q)
      go (succeeded z, v) q = provided z v (b.new_provider row.body.target_slug c) q

  -- Where another update of the row succeeds while its apply is at work, as that of a verification, the
  -- final update of the apply is refused: its results are not stored.
  pub finish-refused :
      (now now' now'' : ℕ) (row row' m r : Migration) (c : C) (w : W) (d e f : Dir Body)
      → claim b now row d ≡ (answer (row', c), e)
      → m.id ≡ row.id
      → update false now' m e ≡ (done tt, f)
      → (work b row' c w).0 ≡ applied r
      → finish b now'' (applied r) f ≡ (refuse conflict, f)
  unfolding finish moved
  finish-refused now now' now'' row row' m r c w d e f h i u k =
      let (claimed, written) = claim_parts b now row row' c d e h in
      let (s, stands, version, given) =
        written_row now (moved (codes "applying") row) d e written in
      let (old, found, next) = update_parts false now' m e (ap (λ x. x.0) u) in
      let (t, last, version', given') = written_row now' m e f u in
      let (ids, versions) = work-Next row' c w r k in
      let same_id : r.id ≡ m.id = ids ∙ (ap (λ (x : Migration). x.id) claimed ∙ sym i) in
      let same_old : old ≡ s = some_inj old s (sym found ∙ (ap (λ x. read_row x e) i ∙ stands)) in
      ap (after_update r) (
        stale_update now'' r t f (ap is_empty same_id ∙ given')
          (ap (λ x. read_row x f) same_id ∙ last)
          (omega (
            arith,
            version,
            version',
            versions,
            next,
            ap (λ (x : Migration). x.version) same_old,
            ap (λ (x : Migration). x.version) claimed,
          )))
    where
      some_inj : (x y : Migration) → some x ≡ some y → x ≡ y
      some_inj x y q = cc
