-- ===== src/Template/Process/Placed.antt =====
-- What a request adds for the entries of its template.
use dns_entree.Base.{
  ◌≡◌, refl, sym, ap, ◌∙◌, subst, Bool, true, false, ◌||◌, ◌⊎◌, inl, inr, List, [], ◌∷◌, ◌++◌,
  arith, any, map, select, All, All-map, All-append, if_rule_by, append_assoc, append-nil,
  if◌then◌else◌, if_rule,
}
use dns_entree.Text.{Bytes, codes, str_eq, str_eq_iff}
use dns_entree.Record.{Record}
use dns_entree.Template.Types.{Entry}
use dns_entree.Template.Substitute.{Vars}
use dns_entree.Template.Keys.{record_key, normalize_record}
use dns_entree.Template.Keys.Fields.{remove_records-All}
use dns_entree.Template.Step.{
  Plan, delete, add, delete_where, replace, add_if_missing, apply_txt, apply_typed, apply_entry,
  apply_entries, same_data,
}
use dns_entree.Template.Process.{
  ProcessOpts, all_vars, is_owned, start_plan, candidates, any_clash, restore_all, restore, plan_of,
}
use dns_entree.Template.Step.Keeps.{apply_entry-keeps, apply_entries-keeps}
use dns_entree.Template.Step.Placed.{
  placing, IsPlaced, In, IsKnown, In-left, In-right, All-In, Holds-known, IsPlaced-more,
  last-IsPlaced, there, merged,
}

module _ (start : List Record) where
  delete-IsKnown : (dels : List Record) (s : Plan) → IsKnown start s → IsKnown start (delete dels s)
  unfolding delete
  delete-IsKnown dels s k = remove_records-All (λ x. In x start ⊎ In x s.to_add) s.zone dels k

  add-IsKnown : (recs : List Record) (s : Plan) → IsKnown start s → IsKnown start (add recs s)
  unfolding add
  add-IsKnown recs s k =
      All-append (λ x. In x start ⊎ In x (s.to_add ++ recs)) s.zone recs
        (All-map (λ x h. wider x h) s.zone k)
        (All-map (λ x h. inr (In-right x s.to_add recs h)) recs (All-In recs))
    where
      wider : (x : Record) → In x start ⊎ In x s.to_add → In x start ⊎ In x (s.to_add ++ recs)
      wider x (inl h) = inl h
      wider x (inr h) = inr (In-left x s.to_add recs h)

  missing-IsPlaced :
      (e : Entry) (s : Plan)
      → IsKnown start s
      → e.is_backing ≡ false
      → any (str_eq e.rec.typ) placing ≡ false
      → IsPlaced start e (add_if_missing (same_data e.rec) e.rec s).to_add
  unfolding add_if_missing add
  missing-IsPlaced e s k b t =
      if_rule_by (λ (x : Plan). IsPlaced start e x.to_add) (any (same_data e.rec) s.zone) _ _
        (λ y. there b t (Holds-known e.rec start s.to_add s.zone k y))
        (λ n. last-IsPlaced start e s.to_add)

  txt_type : (typ : Bytes) → typ ≡ codes "TXT" → any (str_eq typ) placing ≡ false
  unfolding str_eq
  txt_type typ h = ap (λ t. any (str_eq t) placing) h

  apply_typed-IsPlaced :
      (vars : Vars) (original : List Bytes) (e : Entry) (s : Plan)
      → IsKnown start s
      → e.is_backing ≡ false
      → IsPlaced start e (apply_typed e.rec.typ vars original e s).to_add
  unfolding apply_typed apply_txt delete_where replace add delete
  apply_typed-IsPlaced vars original e s k b =
      rule (str_eq typ (codes "SPFM")) _ _ (λ y. merged b ((str_eq_iff typ (codes "SPFM")).0 y))
        (λ n.
          rule (str_eq typ (codes "CNAME")) _ _ (λ _. last-IsPlaced start e s.to_add)
            (λ n1.
              rule (str_eq typ (codes "A") || str_eq typ (codes "AAAA")) _ _
                (λ _. last-IsPlaced start e s.to_add)
                (λ n2.
                  rule (str_eq typ (codes "TXT")) _ _
                    (λ y.
                      missing-IsPlaced e _ (delete-IsKnown _ s k) b
                        (txt_type typ ((str_eq_iff typ (codes "TXT")).0 y)))
                    (λ n3.
                      rule (str_eq typ (codes "MX")) _ _ (λ _. last-IsPlaced start e s.to_add)
                        (λ n4.
                          rule (str_eq typ (codes "NS")) _ _ (λ _. last-IsPlaced start e s.to_add)
                            (λ n5.
                              rule (str_eq typ (codes "SRV")) _ _
                                (λ _. last-IsPlaced start e s.to_add)
                                (λ n6.
                                  rule
                                    (str_eq typ (codes "REDIR301") || str_eq typ (codes "REDIR302"))
                                    _ _ (λ _. last-IsPlaced start e s.to_add)
                                    (λ n7.
                                      rule (str_eq typ (codes "APEXCNAME")) _ _
                                        (λ _. last-IsPlaced start e s.to_add)
                                        (λ n8. missing-IsPlaced e s k b (ground arith))))))))))
    where
      typ : Bytes
      typ = e.rec.typ

      rule :
          (t : Bool) (x y : Plan)
          → (t ≡ true → IsPlaced start e x.to_add)
          → (t ≡ false → IsPlaced start e y.to_add)
          → IsPlaced start e (if t then x else y).to_add
      rule = if_rule_by (λ (x : Plan). IsPlaced start e x.to_add)

  apply_entry-IsPlaced :
      (vars : Vars) (original : List Bytes) (e : Entry) (s : Plan)
      → IsKnown start s
      → IsPlaced start e (apply_entry vars original e s).to_add
  unfolding apply_entry add
  apply_entry-IsPlaced vars original e s k =
      if_rule_by (λ (x : Plan). IsPlaced start e x.to_add) e.is_backing _ _
        (λ _. last-IsPlaced start e s.to_add) (λ b. apply_typed-IsPlaced vars original e s k b)

  apply_entry-IsKnown :
      (vars : Vars) (original : List Bytes) (e : Entry) (s : Plan)
      → IsKnown start s
      → IsKnown start (apply_entry vars original e s)
  apply_entry-IsKnown =
      apply_entry-keeps (IsKnown start) (λ dels s _ k. delete-IsKnown dels s k) add-IsKnown

  -- What was added stays added while the loop runs.
  apply_entries-more :
      (vars : Vars) (original : List Bytes) (es : List Entry) (s : Plan)
      → (more : List Record) × ((apply_entries vars original es s).to_add ≡ s.to_add ++ more)
  apply_entries-more vars original es s =
      apply_entries-keeps (λ t. (more : List Record) × (t.to_add ≡ s.to_add ++ more))
        (λ dels t _ h. unfold delete in h)
        (λ recs t (more, h).
          unfold add in (more ++ recs, ap (λ x. x ++ recs) h ∙ append_assoc s.to_add more recs))
        vars original es s ([], sym (append-nil s.to_add))

  apply_entries-IsPlaced :
      (vars : Vars) (original : List Bytes) (es : List Entry) (s : Plan)
      → IsKnown start s
      → All (λ e. IsPlaced start e (apply_entries vars original es s).to_add) es
  unfolding apply_entries
  apply_entries-IsPlaced vars original [] s k = tt
  apply_entries-IsPlaced vars original (e ∷ es) s k =
      let t = apply_entry vars original e s in
      let (more, h) = apply_entries-more vars original es t in
      (
        subst (IsPlaced start e) (sym h)
            (IsPlaced-more start e t.to_add more (apply_entry-IsPlaced vars original e s k)),
        apply_entries-IsPlaced vars original es t (apply_entry-IsKnown vars original e s k),
      )

  start-IsKnown : IsKnown start (record { zone = start; to_add = []; to_delete = [] })
  start-IsKnown = All-map (λ x h. inl h) start (All-In start)

restore_all-to_add : (kept : List Record) (s : Plan) → (restore_all kept s).to_add ≡ s.to_add
unfolding restore_all
restore_all-to_add [] s = refl
restore_all-to_add (r ∷ rs) s = restore_all-to_add rs _

restore-to_add : (kept : List Record) (s : Plan) → s.to_add ≡ (restore kept s).to_add
unfolding restore
restore-to_add kept s =
    if_rule (λ (x : Plan). s.to_add ≡ x.to_add) (any_clash kept s.to_add) _ _ refl
      (sym (restore_all-to_add kept s))

-- Every entry of the template has its record among those that the request adds, but for a TXT record
-- or one of another type that is not always added, whose data is there, and an SPFM record.
pub plan_of-IsPlaced :
    (o : ProcessOpts) (uid : Bytes) (es : List Entry)
    → All (λ e. IsPlaced (map normalize_record o.zone_records) e (plan_of o uid es).to_add) es
unfolding plan_of start_plan
plan_of-IsPlaced o uid es =
    subst (λ added. All (λ e. IsPlaced zone e added) es)
      (restore-to_add (candidates o uid zone)
        (apply_entries (all_vars o) (map record_key s.zone) es s))
      (apply_entries-IsPlaced zone (all_vars o) (map record_key s.zone) es s (
        if_rule (IsKnown zone) o.multi_aware _ _
          (delete-IsKnown zone (select (λ r. is_owned o uid r.dc) zone) untouched
            (start-IsKnown zone))
          (start-IsKnown zone)))
  where
    zone : List Record
    zone = map normalize_record o.zone_records

    untouched : Plan
    untouched = record { zone = zone; to_add = []; to_delete = [] }

    s : Plan
    s = start_plan o uid zone
