-- ===== src/Api/Stateful/Applied.antt =====
-- The status of an apply against the results of its records.
use dns_entree.Base.{
  ◌≡◌, refl, sym, ap, ◌∙◌, subst, Bool, true, false, List, [], ◌∷◌, if◌then◌else◌, arith, All,
  length,
}
use dns_entree.Text.{Bytes, codes}
use dns_entree.Record.{Record}
use dns_entree.Push.Steps.{updated}
use dns_entree.Template.Names.{is_empty}
use dns_entree.Api.Stateful.{
  Migration, ApplyResult, Attempt, succeeded, failed_with, moved, Backend, broken, applied,
  failed_row, with_zone, with_results, write_records, waited, put, first_of, Looped, work, push_all,
  zone_ensured,
}

-- The errors of the limiter and of the provider have a text.
pub record HasMessages {C W : Type 0} (b : Backend C W) : Type 0 where
  pub waiting : (w : W) (e : Bytes) → (b.wait w).0 ≡ failed_with e → is_empty e ≡ false
  pub setting :
      (slug : Bytes) (c : C) (domain : Bytes) (r : Record) (w : W) (e : Bytes)
      → (b.set_record slug c domain r w).0 ≡ failed_with e
      → is_empty e ≡ false

apart : {t : Bool} → t ≡ true → t ≡ false → ⊥
apart h k = cc

-- The first error is not lost.
no_error :
    (first x : Bytes) (a : Bool)
    → is_empty first ≡ a
    → is_empty (if a then x else first) ≡ true
    → is_empty x ≡ false
    → ⊥
no_error first x true e p q = apart p q
no_error first x false e p q = apart p e

abbrev pub AllUpdated : List ApplyResult → Type 0
AllUpdated = All (λ x. x.status ≡ updated)

module _ {C W : Type 0} (b : Backend C W) (slug : Bytes) (c : C) (domain : Bytes) where
  -- The records are accepted in order, each in the state that the one before it left.
  abbrev pub Accepted : List Record → W → W → Type 0
  Accepted [] w z = w ≡ z
  Accepted (r ∷ rs) w z =
      (v : W) × (u : W) × (b.wait w ≡ (succeeded tt, v))
      × (b.set_record slug c domain r v ≡ (succeeded tt, u))
      × Accepted rs u z

module _ {C W : Type 0} (b : Backend C W) (m : HasMessages b) (slug : Bytes) (c : C)
    (domain : Bytes) where
  -- A loop that ends without an error began without one, and wrote every record.
  abbrev Wrote : List Record → Bytes → W → Looped b → Type 0
  Wrote rs first w l =
      is_empty l.1.0 ≡ true
      → (is_empty first ≡ true)
        × AllUpdated l.0
        × (length l.0 ≡ length rs)
        × Accepted b slug c domain rs w l.1.1

  write_records-Wrote :
      (rs : List Record) (first : Bytes) (w : W)
      → Wrote rs first w (write_records b slug c domain rs first w)
  unfolding write_records
  write_records-Wrote [] first w = λ h. (h, tt, refl, refl)
  write_records-Wrote (r ∷ rs) first w = waits (b.wait w) refl (λ f v. write_records-Wrote rs f v)
    where
      rest : Bytes → W → Looped b
      rest = write_records b slug c domain rs

      puts :
          (v : W) (p : Attempt (Unit {0}) × W)
          → b.wait w ≡ (succeeded tt, v)
          → b.set_record slug c domain r v ≡ p
          → ((f : Bytes) (u : W) → Wrote rs f u (rest f u))
          → Wrote (r ∷ rs) first w (put b r rest first p)
      puts v (succeeded _, u) k e ih h =
          let (empty, all, count, done) = ih first u h in
          (empty, (refl, all), omega (arith, count), (v, u, k, e, done))
      puts v (failed_with x, u) k e ih h =
          let (empty, _, _, _) = ih (first_of b first (failed_with x)) u h in
          absurd (
            no_error first x (is_empty first) refl empty
              (m.setting slug c domain r v x (ap (λ y. y.0) e)))

      waits :
          (p : Attempt (Unit {0}) × W)
          → b.wait w ≡ p
          → ((f : Bytes) (u : W) → Wrote rs f u (rest f u))
          → Wrote
              (r ∷ rs)
              first
              w
              (waited b (λ v. put b r rest first (b.set_record slug c domain r v)) p)
      waits (succeeded _, v) e ih h = puts v (b.set_record slug c domain r v) e refl ih h
      waits (failed_with x, v) e ih h = absurd (apart h (m.waiting w x (ap (λ y. y.0) e)))

-- The zone was ensured, the provider accepted the records of the preview one after the other, and
-- the results say so.
pub record IsComplete {C W : Type 0} (b : Backend C W) (row : Migration) (c : C) (w z : W)
    (r : Migration) : Type 0 where
  pub zone : Bytes × List Bytes
  pub start : W
  pub ensured : b.ensure_zone row.body.target_slug row.body.domain c w ≡ (succeeded zone, start)
  pub accepted : Accepted b row.body.target_slug c row.body.domain row.body.preview_records start z
  pub wrote : AllUpdated r.body.apply_results
  pub every : length r.body.apply_results ≡ length row.body.preview_records
  pub identified : r.body.target_zone_id ≡ zone.0

module _ {C W : Type 0} (b : Backend C W) where
  -- Where errors have a text: a migration whose apply ends in awaiting a change of name servers has
  -- its zone ensured, whose id it keeps; then each record of the preview, in order, was let through
  -- by the limiter and accepted by the provider, each in the state that the one before it left, and
  -- the state after the last one is the one in which the apply ends; and there is one result for
  -- each record, all of them updated.
  pub work-IsComplete :
      (row : Migration) (c : C) (w : W) (r : Migration)
      → HasMessages b
      → (work b row c w).0 ≡ applied r
      → r.status ≡ codes "awaiting_ns_change"
      → IsComplete b row c w (work b row c w).1 r
  unfolding work with_results failed_row moved with_zone
  work-IsComplete row c w r m h a =
      go (b.ensure_zone row.body.target_slug row.body.domain c w) refl h
    where
      same : (x : Migration) → applied x ≡ applied r → x ≡ r
      same x q = cc

      never : (x : Migration) → broken x ≡ applied r → ⊥
      never x q = cc

      ended :
          (zone : Bytes × List Bytes) (v : W)
          → b.ensure_zone row.body.target_slug row.body.domain c w ≡ (succeeded zone, v)
          → (n : Migration) (l : Looped b) (t : Bool) → is_empty l.1.0 ≡ t
          → Wrote b m row.body.target_slug c row.body.domain row.body.preview_records [] v l
          → n.body.apply_results ≡ l.0
          → n.body.target_zone_id ≡ zone.0
          → (if t then moved (codes "awaiting_ns_change") n else failed_row l.1.0 n) ≡ r
          → IsComplete b row c w l.1.1 r
      ended zone v z n l true t wrote k i q =
          let (_, all, count, done) = wrote t in
          let results : l.0 ≡ r.body.apply_results =
            sym k ∙ ap (λ (x : Migration). x.body.apply_results) q in
          record {
            zone = zone;
            start = v;
            ensured = z;
            accepted = done;
            wrote = subst AllUpdated results all;
            every = ap length (sym results) ∙ count;
            identified = sym (ap (λ (x : Migration). x.body.target_zone_id) q) ∙ i;
          }
      ended zone v z n l false t wrote k i q =
          let other : codes "failed" ≡ codes "awaiting_ns_change" =
            ap (λ (x : Migration). x.status) q ∙ a in
          ground arith

      provided :
          (z : Bytes × List Bytes) (v : W) (t : Attempt (Unit {0}))
          → b.ensure_zone row.body.target_slug row.body.domain c w ≡ (succeeded z, v)
          → (push_all b (with_zone b z row) c v t).0 ≡ applied r
          → IsComplete b row c w (push_all b (with_zone b z row) c v t).1 r
      provided z v (failed_with e) k q = absurd (never _ q)
      provided z v (succeeded _) k q =
          let l =
            write_records b row.body.target_slug c row.body.domain row.body.preview_records [] v in
          ended z v k
            (record row { body = record (with_zone b z row).body { apply_results = l.0 } }) l
            (is_empty l.1.0) refl
            (write_records-Wrote b m row.body.target_slug c row.body.domain row.body.preview_records
              [] v)
            refl refl (same _ q)

      go :
          (p : Attempt (Bytes × List Bytes) × W)
          → b.ensure_zone row.body.target_slug row.body.domain c w ≡ p
          → (zone_ensured b row c p).0 ≡ applied r
          → IsComplete b row c w (zone_ensured b row c p).1 r
      go (failed_with e, v) k q = absurd (never _ q)
      go (succeeded z, v) k q = provided z v (b.new_provider row.body.target_slug c) k q
