-- ===== src/Template/Apply/Conflicts.antt =====
-- What conflict resolution leaves at a provider whose deletions remove the record with the id.
use dns_entree.Base.{
  Bool, true, false, not, ◌&&◌, ◌||◌, List, [], ◌∷◌, none, if◌then◌else◌, ◌≡◌, refl, sym, ap, ◌∙◌,
  subst, arith, select, any,
}
use dns_entree.Text.{Bytes, codes, str_eq}
use dns_entree.Record.{Record, Provider}
use dns_entree.Record.Errors.{Result, ok, err}
use dns_entree.Template.Resolve.{ResolvedRecord}
use dns_entree.Template.Apply.{
  Cleared, is_conflict, after_delete, delete_conflicts, after_list, apply_conflicts,
}

-- A deletion that succeeds removes the records with the id from the TXT records, and no other.
pub record IsDeleting {S : Type 0} (p : Provider S) (domain : Bytes) : Type 0 where
  pub view : S → List Record
  pub reads : (s : S) → p.get_records domain (codes "TXT") s ≡ (ok (view s), s)
  pub deleted :
      (id : Bytes) (s : S)
      → (p.delete_record domain id s).0 ≡ ok tt
      → view (p.delete_record domain id s).1 ≡ select (λ r. not (str_eq r.id id)) (view s)

-- The id of a record in conflict.
abbrev pub is_named_by : ResolvedRecord → List Record → Record → Bool
is_named_by rr es r = any (λ e. is_conflict rr e && str_eq r.id e.id) es

select-cong :
    (q q' : Record → Bool)
    → ((r : Record) → q r ≡ q' r)
    → (xs : List Record) → select q xs ≡ select q' xs
select-cong q q' h [] = refl
select-cong q q' h (x ∷ xs) = rw (h x, select-cong q q' h xs)

select-select :
    (q q' : Record → Bool) (xs : List Record)
    → select q (select q' xs) ≡ select (λ r. q' r && q r) xs
select-select q q' [] = refl
select-select q q' (x ∷ xs) = ground (arith, select-select q q' xs)

select_all : (xs : List Record) → select (λ r. true) xs ≡ xs
select_all [] = refl
select_all (x ∷ xs) = ap (λ ys. x ∷ ys) (select_all xs)

not_or : (a b : Bool) → (not a && not b) ≡ not (a || b)
not_or a b = ground arith

module _ {S : Type 0} (p : Provider S) (domain : Bytes) (d : IsDeleting p domain) where
  after_delete_ok :
      (w : Result (Unit {0}) × S) (rest : S → Cleared S)
      → (after_delete p domain w rest).0 ≡ none
      → (w.0 ≡ ok tt) × (after_delete p domain w rest ≡ rest w.1)
  unfolding after_delete
  after_delete_ok (ok u, s) rest h = (refl, refl)
  after_delete_ok (err e, s) rest h = cc

  -- One record of the loop, where the rest of the loop leaves what `q` does not name.
  one_deletion :
      (b : Bool) (id : Bytes) (s : S) (rest : S → Cleared S) (q : Record → Bool)
      → (if b then after_delete p domain (p.delete_record domain id s) rest else rest s).0 ≡ none
      → ((u : S) → (rest u).0 ≡ none → d.view (rest u).1 ≡ select (λ r. not (q r)) (d.view u))
      → d.view (if b then after_delete p domain (p.delete_record domain id s) rest else rest s).1
        ≡ select (λ r. not ((b && str_eq r.id id) || q r)) (d.view s)
  one_deletion false id s rest q h next = next s h
  one_deletion true id s rest q h next =
      let w = p.delete_record domain id s in
      let (done, e) = after_delete_ok w rest h in
      ap (λ o. d.view o.1) e
      ∙ next w.1 (sym (ap (λ o. o.0) e) ∙ h)
      ∙ ap (select (λ r. not (q r))) (d.deleted id s done)
      ∙ select-select (λ r. not (q r)) (λ r. not (str_eq r.id id)) (d.view s)
      ∙ select-cong (λ r. not (str_eq r.id id) && not (q r)) (λ r. not (str_eq r.id id || q r))
          (λ r. not_or (str_eq r.id id) (q r)) (d.view s)

  delete_conflicts-leaves :
      (rr : ResolvedRecord) (es : List Record) (s : S)
      → (delete_conflicts p domain rr es s).0 ≡ none
      → d.view (delete_conflicts p domain rr es s).1
        ≡ select (λ r. not (is_named_by rr es r)) (d.view s)
  unfolding delete_conflicts
  delete_conflicts-leaves rr [] s h = sym (select_all (d.view s))
  delete_conflicts-leaves rr (e ∷ es) s h =
      one_deletion (is_conflict rr e) e.id s (delete_conflicts p domain rr es) (is_named_by rr es) h
        (delete_conflicts-leaves rr es)

  -- Where conflict resolution ends without an error, at a provider that shows its records and whose
  -- deletions remove the record with the id, the TXT records left are those whose id is not the id
  -- of a record in conflict: one of the same name that the mode names.
  pub apply_conflicts-leaves :
      (rr : ResolvedRecord) (s : S)
      → (apply_conflicts p domain rr s).1.0 ≡ none
      → d.view (apply_conflicts p domain rr s).1.1
        ≡ select (λ r. not (is_named_by rr (d.view s) r)) (d.view s)
  unfolding apply_conflicts after_list
  apply_conflicts-leaves rr s =
      subst
        (λ g.
          (after_list p domain rr g).1.0 ≡ none
          → d.view (after_list p domain rr g).1.1
            ≡ select (λ r. not (is_named_by rr (d.view s) r)) (d.view s))
        (sym (d.reads s)) (delete_conflicts-leaves rr (d.view s) s)
