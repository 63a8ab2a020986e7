-- ===== src/Api/Stateful/Lifecycle/Stages.antt =====
-- The stages of a migration, by its version and status.
use dns_entree.Base.{
  ℕ, ◌+◌, ◌≤◌, ◌≡◌, refl, sym, ap, ◌∙◌, subst, Bool, true, false, ◌⊎◌, inl, inr, [], ◌∷◌,
  if◌then◌else◌, arith, All, Option, none, some, if_rule, Bool-cases, ◌==◌,
}
use dns_entree.Text.{Bytes, codes, str_eq}
use dns_entree.Migrate.Store.{
  Dir, Answer, done, refused, read_row, write_row, remove_row, update, update_found, sweep,
  sweep_expired, delete, is_expired, cancelled, missing_id, already_exists, not_found,
  version_mismatch, expired,
}
use dns_entree.Api.Stateful.{Body, Migration, after_update, is_verifiable, verified_status}

-- Version 1 is the preview, 2 the running apply, 3 its end; a verification comes after the apply began.
pub data Stage (v : ℕ) (status : Bytes) : Type 0 where
  previewed : v ≡ 1 → status ≡ codes "preview" → Stage v status
  applying : v ≡ 2 → status ≡ codes "applying" → Stage v status
  applied : v ≡ 3 → status ≡ codes "awaiting_ns_change" → Stage v status
  broken_off : v ≡ 3 → status ≡ codes "failed" → Stage v status
  checked : 3 ≤ v → (status ≡ codes "verifying") ⊎ (status ≡ codes "complete") → Stage v status

abbrev pub IsStaged : Migration → Type 0
IsStaged m = Stage m.version m.status

abbrev pub AllStaged : Dir Body → Type 0
AllStaged d = All (λ p. IsStaged p.1) d

pub read_row-IsStaged :
    (id : Bytes) (d : Dir Body) (r : Migration) → AllStaged d → read_row id d ≡ some r → IsStaged r
unfolding read_row
read_row-IsStaged id [] r h e = cc
read_row-IsStaged id ((k, s) ∷ d) r (hs, hd) e = elim (Bool-cases (str_eq k id)) [
  | inl y ↦ subst IsStaged (first y) hs
  | inr n ↦ read_row-IsStaged id d r hd (ap (λ x. if x then some s else read_row id d) (sym n) ∙ e)
]
  where
    first : str_eq k id ≡ true → s ≡ r
    first y = ground arith

pub write_row-AllStaged :
    (m : Migration) (d : Dir Body) → IsStaged m → AllStaged d → AllStaged (write_row m d)
unfolding write_row
write_row-AllStaged m [] h _ = (h, tt)
write_row-AllStaged m ((k, r) ∷ d) h (hr, hd) =
    if_rule AllStaged (str_eq k m.id) _ _ (h, hd) (hr, write_row-AllStaged m d h hd)

pub remove_row-AllStaged : (id : Bytes) (d : Dir Body) → AllStaged d → AllStaged (remove_row id d)
unfolding remove_row
remove_row-AllStaged id [] _ = tt
remove_row-AllStaged id ((k, r) ∷ d) (hr, hd) =
    if_rule AllStaged (str_eq k id) _ _ (remove_row-AllStaged id d hd)
      (hr, remove_row-AllStaged id d hd)

sweep-AllStaged : (before : ℕ) (d : Dir Body) → AllStaged d → AllStaged (sweep before d).1
unfolding sweep
sweep-AllStaged before [] _ = tt
sweep-AllStaged before ((k, r) ∷ d) (hr, hd) =
    if_rule (λ (o : ℕ × Dir Body). AllStaged o.1) (is_expired before r)
      ((sweep before d).0 + 1, (sweep before d).1) ((sweep before d).0, (k, r) ∷ (sweep before d).1)
      (sweep-AllStaged before d hd) (hr, sweep-AllStaged before d hd)

pub sweep_expired-AllStaged :
    (before : ℕ) (d : Dir Body) → AllStaged d → AllStaged (sweep_expired false before d).1
unfolding sweep_expired
sweep_expired-AllStaged before d h = sweep-AllStaged before d h

pub delete-AllStaged :
    (id : Bytes) (d : Dir Body) → AllStaged d → AllStaged (delete {B = Body} false id d).1
unfolding delete
delete-AllStaged id d h = remove_row-AllStaged id d h

pub update-AllStaged :
    (now : ℕ) (m : Migration) (d : Dir Body)
    → IsStaged m
    → AllStaged d
    → AllStaged (update false now m d).1
unfolding update
update-AllStaged now m d h hd =
    if_rule (λ (o : Answer (Unit {0}) × Dir Body). AllStaged o.1) _ _ _ hd (found (read_row m.id d))
  where
    found : (o : Option Migration) → AllStaged (update_found now m d o).1
    found none = hd
    found (some old) =
        if_rule (λ (o : Answer (Unit {0}) × Dir Body). AllStaged o.1) (old.version + 1 == m.version)
          _ _
          (write_row-AllStaged (record m { created_at = old.created_at; updated_at = now }) d h hd)
          hd

pub after_update_store {ℓ} :
    {A : Type ℓ} (a : A) (u : Answer (Unit {0}) × Dir Body) → (after_update a u).1 ≡ u.1
after_update_store a (done _, d) = refl
after_update_store a (refused version_mismatch, d) = refl
after_update_store a (refused cancelled, d) = refl
after_update_store a (refused missing_id, d) = refl
after_update_store a (refused already_exists, d) = refl
after_update_store a (refused not_found, d) = refl
after_update_store a (refused expired, d) = refl

-- A status that is another than one that a test accepts.
contrary :
    {P : Type 0} (test : Bytes → Bool) (s t : Bytes) → test t ≡ false → s ≡ t → test s ≡ true → P
contrary test s t n e h = let no : false ≡ true = sym n ∙ (ap test (sym e) ∙ h) in cc

-- Which stages a handler goes on from.
pub preview_first : (v : ℕ) (s : Bytes) → Stage v s → str_eq s (codes "preview") ≡ true → v ≡ 1
unfolding str_eq
preview_first v s (previewed h e) p = h
preview_first v s (applying h e) p = contrary (λ t. str_eq t (codes "preview")) s _ refl e p
preview_first v s (applied h e) p = contrary (λ t. str_eq t (codes "preview")) s _ refl e p
preview_first v s (broken_off h e) p = contrary (λ t. str_eq t (codes "preview")) s _ refl e p
preview_first v s (checked h (inl e)) p = contrary (λ t. str_eq t (codes "preview")) s _ refl e p
preview_first v s (checked h (inr e)) p = contrary (λ t. str_eq t (codes "preview")) s _ refl e p

pub verifiable_later : (v : ℕ) (s : Bytes) → Stage v s → is_verifiable s ≡ true → 2 ≤ v
unfolding is_verifiable str_eq
verifiable_later v s (previewed h e) p = contrary is_verifiable s _ refl e p
verifiable_later v s (applying h e) p = omega (arith, h)
verifiable_later v s (applied h e) p = omega (arith, h)
verifiable_later v s (broken_off h e) p = contrary is_verifiable s _ refl e p
verifiable_later v s (checked h e) p = omega (arith, h)

pub verified_stage : (v : ℕ) (r : ℕ × ℕ) → 2 ≤ v → Stage (v + 1) (verified_status r)
unfolding verified_status
verified_stage v (m, t) h =
    checked (omega (arith, h))
      (if_rule (λ s. (s ≡ codes "verifying") ⊎ (s ≡ codes "complete")) _ _ _ (inr refl) (inl refl))
