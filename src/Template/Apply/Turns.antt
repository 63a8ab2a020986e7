-- ===== src/Template/Apply/Turns.antt =====
-- One turn of the loop over the resolved records: what it does to the provider and what it reports.
use dns_entree.Base.{
  ◌≡◌, refl, Bool, true, false, List, ◌∷◌, [], none, some, if◌then◌else◌, Bool-cases, inl, inr, ap,
  if_rule_by, subst, sym, ◌∙◌,
}
use dns_entree.Text.{Bytes, codes, str_eq, str_eq_iff, str_ne}
use dns_entree.Record.{Record, Provider}
use dns_entree.Record.Errors.{Error, get_failed, set_failed, unsupported_type, Result, ok, err}
use dns_entree.Spf.Merge.{Merged, merge_value}
use dns_entree.Push.Steps.{
  created, updated, already_configured, failed, PushResult, fresh_result, VerifyOpts, Verifier,
  Outcome, after_read, after_write,
}
use dns_entree.Push.{is_generic, current_spf, settle_spf, merge_spf_records, push_spf_record}
use dns_entree.Push.Outcomes.{is_done, verified_result-status}
use dns_entree.Template.Names.{is_empty, is_empty-nil}
use dns_entree.Template.Resolve.{ResolvedRecord}
use dns_entree.Template.Apply.{
  extract_include, has_mode, failed_result, Cleared, Warning, apply_conflicts, dispatch_spfm,
  dispatch_record, after_conflicts, apply_record,
}
use dns_entree.Template.Apply.Fates.{
  IsNamed, IsPushed, verified_result-IsNamed, push_txt-IsPushed, push_cname-IsPushed,
  push_generic-IsPushed,
}

-- The value that the SPF record at the domain should have.
abbrev pub with_include : Bytes → Bytes → List Record → Merged
with_include domain include rs = merge_value (current_spf domain rs) (include ∷ [])

-- The TXT records are read; the SPF record of the domain holds the include, or the merged value is
-- written at the domain; or the call that failed is named.
pub data Inclusion {S : Type 0} (p : Provider S) (domain include : Bytes) (v : S) (o : Outcome S)
    : Type 0 where
  kept :
      (rs : List Record)
      → p.get_records domain (codes "TXT") v ≡ (ok rs, o.2)
      → (with_include domain include rs).changed ≡ false
      → IsNamed domain (with_include domain include rs).value o.0
      → o.0.status ≡ already_configured
      → o.1 ≡ none
      → Inclusion p domain include v o
  merged :
      (rs : List Record) (m : S) (w : Record)
      → p.get_records domain (codes "TXT") v ≡ (ok rs, m)
      → p.set_record domain w m ≡ (ok tt, o.2)
      → (w.typ ≡ codes "TXT")
        × (w.name ≡ domain)
        × (w.content ≡ (with_include domain include rs).value)
      → IsNamed domain (with_include domain include rs).value o.0
      → is_done o.0.status ≡ true
      → o.1 ≡ none
      → Inclusion p domain include v o
  unread :
      (x : Error)
      → p.get_records domain (codes "TXT") v ≡ (err x, o.2)
      → o.0.record_name ≡ domain
      → o.0.status ≡ failed
      → o.1 ≡ some (get_failed x)
      → Inclusion p domain include v o
  unwritten :
      (rs : List Record) (m : S) (w : Record) (x : Error)
      → p.get_records domain (codes "TXT") v ≡ (ok rs, m)
      → p.set_record domain w m ≡ (err x, o.2)
      → IsNamed domain (with_include domain include rs).value o.0
      → o.0.status ≡ failed
      → o.1 ≡ some (set_failed x)
      → Inclusion p domain include v o

-- The records in conflict are gone, where the record has a mode; the push begins in the state v.
abbrev pub IsReady : {S : Type 0} → Provider S → Bytes → ResolvedRecord → S → S → Type 0
IsReady p domain rr s v =
    (if has_mode rr then (apply_conflicts p domain rr s).1 else (none, s)) ≡ (none, v)

-- What one record came to, from the state that the loop was in.
pub data IsTurn {S : Type 0} (p : Provider S) (domain : Bytes) (rr : ResolvedRecord) (s : S)
    (o : Outcome S) : Type 0 where
  -- The records in conflict could not be read or deleted.
  uncleared :
      (x : Error)
      → has_mode rr ≡ true
      → (apply_conflicts p domain rr s).1 ≡ (some x, o.2)
      → IsNamed rr.rec.name rr.rec.content o.0
      → o.0.status ≡ failed
      → o.1 ≡ some x
      → IsTurn p domain rr s o
  -- The record was pushed, after the deletions.
  pushed :
      (v : S)
      → IsReady p domain rr s v
      → IsPushed p domain rr.rec.typ rr.rec.name rr.rec.content v o
      → IsTurn p domain rr s o
  -- The include of an SPFM record was merged.
  included :
      (v : S)
      → IsReady p domain rr s v
      → rr.rec.typ ≡ codes "SPFM"
      → Inclusion p domain (extract_include rr.rec.content) v o
      → IsTurn p domain rr s o
  -- An SPFM record without an include asks for nothing.
  no_include :
      (v : S)
      → IsReady p domain rr s v
      → rr.rec.typ ≡ codes "SPFM"
      → extract_include rr.rec.content ≡ []
      → o ≡ (record (fresh_result rr.rec.name []) { status = already_configured }, none, v)
      → IsTurn p domain rr s o
  unsupported :
      IsReady p domain rr s o.2
      → is_generic rr.rec.typ ≡ false
      → (rr.rec.typ ≡ codes "TXT" → ⊥)
        × (rr.rec.typ ≡ codes "CNAME" → ⊥)
        × (rr.rec.typ ≡ codes "SPFM" → ⊥)
      → IsNamed rr.rec.name rr.rec.content o.0
      → o.0.status ≡ failed
      → o.1 ≡ some (unsupported_type rr.rec.typ)
      → IsTurn p domain rr s o

module _ {S : Type 0} (p : Provider S) (verify : Verifier S) (domain : Bytes) where
  -- The write of a merged value.
  write-Inclusion :
      (include : Bytes) (v m : S) (rs : List Record) (w : Record) (found : Bool)
      (result : PushResult) (opts : VerifyOpts)
      → p.get_records domain (codes "TXT") v ≡ (ok rs, m)
      → (w.typ ≡ codes "TXT")
        × (w.name ≡ domain)
        × (w.content ≡ (with_include domain include rs).value)
      → IsNamed domain (with_include domain include rs).value result
      → (q : Result (Unit {0}) × S) → p.set_record domain w m ≡ q
      → Inclusion p domain include v
          (after_write q (if found then updated else created) result (verify domain opts))
  unfolding after_write
  write-Inclusion include v m rs w found result opts g wf h (err x, z) e =
      unwritten rs m w x g e h refl refl
  write-Inclusion include v m rs w found result opts g wf h (ok _, z) e =
      let status = if found then updated else created in
      let marked : PushResult = record result { status = status } in
      let done : is_done status ≡ true =
        elim found as (λ b. is_done (if b then updated else created) ≡ true) [
          | true ↦ refl
          | false ↦ refl
        ] in
      merged rs m w g e wf
        (verified_result-IsNamed domain (with_include domain include rs).value marked
          (verify domain opts z) h)
        (ap is_done (verified_result-status marked (verify domain opts z)) ∙ done) refl

  settle_spf-Inclusion :
      (include : Bytes) (v m : S) (rs : List Record)
      → p.get_records domain (codes "TXT") v ≡ (ok rs, m)
      → Inclusion p domain include v
          (settle_spf p verify domain (with_include domain include rs) (current_spf domain rs) m)
  unfolding settle_spf
  settle_spf-Inclusion include v m rs g =
      elim (Bool-cases (with_include domain include rs).changed) [
        | inl y ↦
            rw y (write-Inclusion include v m rs _ _ _ _ g (refl, refl, refl) (refl, refl) _ refl)
        | inr n ↦ rw n (kept rs g n (refl, refl) refl refl)
      ]

  push_spf-Inclusion :
      (include : Bytes) (s : S)
      → Inclusion p domain include s (push_spf_record p verify domain (include ∷ []) s)
  unfolding push_spf_record merge_spf_records after_read
  push_spf-Inclusion include s = go (p.get_records domain (codes "TXT") s) refl
    where
      go :
          (g : Result (List Record) × S)
          → p.get_records domain (codes "TXT") s ≡ g
          → Inclusion p domain include s (
              after_read g
                (fresh_result domain [])
                (merge_spf_records p verify domain (include ∷ [])))
      go (err x, z) e = unread x e refl refl refl
      go (ok rs, m) e = settle_spf-Inclusion include s m rs e

  module _ (rr : ResolvedRecord) (s v : S) (k : IsReady p domain rr s v) where
    dispatch_spfm-IsTurn :
        rr.rec.typ ≡ codes "SPFM"
        → IsTurn p domain rr s
            (dispatch_spfm p verify domain rr.rec (extract_include rr.rec.content) v)
    unfolding dispatch_spfm
    dispatch_spfm-IsTurn t = elim (Bool-cases (is_empty (extract_include rr.rec.content))) [
      | inl y ↦ rw y (no_include v k t (is_empty-nil (extract_include rr.rec.content) y) refl)
      | inr n ↦ rw n (included v k t (push_spf-Inclusion (extract_include rr.rec.content) v))
    ]

    dispatch_record-IsTurn : IsTurn p domain rr s (dispatch_record p verify domain rr.rec v)
    unfolding dispatch_record
    dispatch_record-IsTurn =
        if_rule_by (IsTurn p domain rr s) (str_eq t (codes "TXT")) _ _
          (λ y.
            at_type (codes "TXT") ((str_eq_iff t (codes "TXT")).0 y) _
              (push_txt-IsPushed p verify domain rr.rec.name rr.rec.content v))
          (λ n.
            if_rule_by (IsTurn p domain rr s) (str_eq t (codes "CNAME")) _ _
              (λ y.
                at_type (codes "CNAME") ((str_eq_iff t (codes "CNAME")).0 y) _
                  (push_cname-IsPushed p verify domain rr.rec.name rr.rec.content v))
              (λ n'.
                if_rule_by (IsTurn p domain rr s) (str_eq t (codes "SPFM")) _ _
                  (λ y. dispatch_spfm-IsTurn ((str_eq_iff t (codes "SPFM")).0 y))
                  (λ n''.
                    if_rule_by (IsTurn p domain rr s) (is_generic t) _ _
                      (λ y. pushed v k (push_generic-IsPushed p verify domain rr.rec v y))
                      (λ g.
                        unsupported k g
                          (
                            str_ne t (codes "TXT") n,
                            str_ne t (codes "CNAME") n',
                            str_ne t (codes "SPFM") n'',
                          )
                          (refl, refl) refl refl))))
      where
        t : Bytes
        t = rr.rec.typ

        at_type :
            (u : Bytes)
            → t ≡ u
            → (o : Outcome S) → IsPushed p domain u rr.rec.name rr.rec.content v o
            → IsTurn p domain rr s o
        at_type u e o h =
            pushed v k (subst (λ x. IsPushed p domain x rr.rec.name rr.rec.content v o) (sym e) h)

  pub apply_record-IsTurn :
      (rr : ResolvedRecord) (s : S) → IsTurn p domain rr s (apply_record p verify domain rr s).1
  unfolding apply_record after_conflicts failed_result
  apply_record-IsTurn rr s = elim (Bool-cases (has_mode rr)) [
    | inl y ↦ rw y (go y (apply_conflicts p domain rr s) refl)
    | inr n ↦ rw n (dispatch_record-IsTurn rr s s (rw n refl))
  ]
    where
      go :
          has_mode rr ≡ true
          → (c : List Warning × Cleared S) → apply_conflicts p domain rr s ≡ c
          → IsTurn p domain rr s (after_conflicts p verify domain rr c).1
      go y (ws, (some x, z)) e = uncleared x y (ap (λ q. q.1) e) (refl, refl) refl refl
      go y (ws, (none, z)) e = dispatch_record-IsTurn rr s z (rw y (ap (λ q. q.1) e))
