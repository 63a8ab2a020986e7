-- ===== src/Template/Step/Keeps.antt =====
-- What the loop over the entries keeps: whatever adding records and deleting records of the zone keep.
use dns_entree.Base.{
  ◌≤◌, ◌≡◌, refl, Bool, List, [], ◌∷◌, Option, none, some, arith, select, any, find?, Bool-cases,
  inl, inr, if_rule, ◌||◌,
}
use dns_entree.Text.{Bytes, codes, str_eq, contains}
use dns_entree.Record.{Record}
use dns_entree.Template.Types.{Entry}
use dns_entree.Template.Substitute.{Vars}
use dns_entree.Template.Keys.Counts.{count, count-select-le, count-found-le}
use dns_entree.Template.Spfm.{process_spfm, merge_into, is_spf_at}
use dns_entree.Template.Step.{
  Plan, delete, add, delete_where, replace, add_if_missing, apply_spfm, apply_txt, apply_typed,
  apply_entry, apply_entries,
}

spfm-fits :
    (zone : List Record) (r : Record) (k : Bytes)
    → count k (process_spfm zone r).dels ≤ count k zone
unfolding process_spfm merge_into
spfm-fits zone r k = go (find? (is_spf_at r.name) zone) refl
  where
    go :
        (o : Option Record)
        → find? (is_spf_at r.name) zone ≡ o
        → count k (merge_into o r).dels ≤ count k zone
    go none e = omega arith
    go (some old) e = elim (Bool-cases (contains old.content r.content)) [
      | inl y ↦ rw y (omega arith)
      | inr n ↦ rw n (count-found-le (is_spf_at r.name) k zone old e)
    ]

-- A property of the plan that `delete` keeps for records of the zone, and `add` for any.
module _ {κ} (P : Plan → Type κ)
    (kept_delete : (dels : List Record) (s : Plan)
      → ((k : Bytes) → count k dels ≤ count k s.zone)
      → P s
      → P (delete dels s))
    (kept_add : (recs : List Record) (s : Plan) → P s → P (add recs s)) where
  delete_where-keeps : (p : Record → Bool) (s : Plan) → P s → P (delete_where p s)
  unfolding delete_where
  delete_where-keeps p s = kept_delete (select p s.zone) s (λ k. count-select-le p k s.zone)

  replace-keeps : (p : Record → Bool) (r : Record) (s : Plan) → P s → P (replace p r s)
  unfolding replace
  replace-keeps p r s b = kept_add (r ∷ []) (delete_where p s) (delete_where-keeps p s b)

  add_if_missing-keeps :
      (p : Record → Bool) (r : Record) (s : Plan) → P s → P (add_if_missing p r s)
  unfolding add_if_missing
  add_if_missing-keeps p r s b =
      if_rule (P) (any p s.zone) s (add (r ∷ []) s) b (kept_add (r ∷ []) s b)

  apply_spfm-keeps : (r : Record) (s : Plan) → P s → P (apply_spfm r s)
  unfolding apply_spfm
  apply_spfm-keeps r s b =
      kept_add _ _ (kept_delete (process_spfm s.zone r).dels s (spfm-fits s.zone r) b)

  apply_txt-keeps : (vars : Vars) (e : Entry) (s : Plan) → P s → P (apply_txt vars e s)
  unfolding apply_txt
  apply_txt-keeps vars e s b = add_if_missing-keeps _ e.rec _ (delete_where-keeps _ s b)

  apply_typed-keeps :
      (typ : Bytes) (vars : Vars) (original : List Bytes) (e : Entry) (s : Plan)
      → P s
      → P (apply_typed typ vars original e s)
  unfolding apply_typed
  apply_typed-keeps typ vars original e s b =
      let r = e.rec in
      let rule = if_rule (P) in
      rule (str_eq typ (codes "SPFM")) _ _ (apply_spfm-keeps r s b) (
        rule (str_eq typ (codes "CNAME")) _ _ (replace-keeps _ r s b) (
          rule (str_eq typ (codes "A") || str_eq typ (codes "AAAA")) _ _
            (replace-keeps _ r _ (delete_where-keeps _ s b))
            (rule (str_eq typ (codes "TXT")) _ _ (apply_txt-keeps vars e s b) (
              rule (str_eq typ (codes "MX")) _ _ (replace-keeps _ r s b) (
                rule (str_eq typ (codes "NS")) _ _ (replace-keeps _ r s b) (
                  rule (str_eq typ (codes "SRV")) _ _ (replace-keeps _ r s b) (
                    rule (str_eq typ (codes "REDIR301") || str_eq typ (codes "REDIR302")) _ _
                      (replace-keeps _ r s b)
                      (rule (str_eq typ (codes "APEXCNAME")) _ _ (replace-keeps _ r s b)
                        (add_if_missing-keeps _ r s b)))))))))

  pub apply_entry-keeps :
      (vars : Vars) (original : List Bytes) (e : Entry) (s : Plan)
      → P s
      → P (apply_entry vars original e s)
  unfolding apply_entry
  apply_entry-keeps vars original e s b =
      if_rule (P) e.is_backing _ _ (kept_add _ s b)
        (apply_typed-keeps e.rec.typ vars original e s b)

  pub apply_entries-keeps :
      (vars : Vars) (original : List Bytes) (es : List Entry) (s : Plan)
      → P s
      → P (apply_entries vars original es s)
  unfolding apply_entries
  apply_entries-keeps vars original [] s b = b
  apply_entries-keeps vars original (e ∷ es) s b =
      apply_entries-keeps vars original es (apply_entry vars original e s)
        (apply_entry-keeps vars original e s b)
