-- ===== src/Template/Apply/Laws.antt =====
-- The report of a template: one result for each resolved record, and an error for each failed one.
use dns_entree.Base.{
  true, List, [], ◌∷◌, ◌++◌, Option, none, some, if◌then◌else◌, ◌≡◌, refl, if_rule, inl, inr, ◌⊎◌,
}
use dns_entree.Text.{Bytes, codes, str_eq}
use dns_entree.Record.{Record, Provider}
use dns_entree.Record.Errors.{Error, Result, ok, err}
use dns_entree.Push.Steps.{failed, PushResult, Verifier, Outcome}
use dns_entree.Push.{is_generic}
use dns_entree.Push.Outcomes.{is_done, IsHonest, clean, broken, pushes-IsHonest}
use dns_entree.Validate.{Ip}
use dns_entree.Template.Types.{TemplateRecord}
use dns_entree.Template.Names.{is_empty}
use dns_entree.Template.Substitute.{Vars}
use dns_entree.Template.Resolve.{ResolvedRecord, resolve_detailed}
use dns_entree.Template.Apply.Turns.{IsTurn, apply_record-IsTurn}
use dns_entree.Template.Apply.{
  extract_include, has_mode, failed_result, Cleared, Warning, errors_of, Report, apply_conflicts,
  dispatch_spfm, dispatch_record, after_conflicts, apply_record, apply_all, after_resolve,
  apply_template_with_report,
}

-- The turns of the loop, in order, each from the state that the one before it left, with the
-- results and the errors: a result without an error is one of a record that was created, updated or
-- already there, and one with an error is a failed one.
pub data IsAccounted {S : Type 0} (p : Provider S) (domain : Bytes)
    : List ResolvedRecord → S → List PushResult → List Error → S → Type 0 where
  nothing : (s : S) → IsAccounted p domain [] s [] [] s
  settled :
      (rr : ResolvedRecord) {rrs : List ResolvedRecord} (r : PushResult) {rs : List PushResult}
      {es : List Error} {s : S} (m : S) {z : S}
      → IsTurn p domain rr s (r, none, m)
      → is_done r.status ≡ true
      → IsAccounted p domain rrs m rs es z
      → IsAccounted p domain (rr ∷ rrs) s (r ∷ rs) es z
  broke :
      (rr : ResolvedRecord) {rrs : List ResolvedRecord} (r : PushResult) {rs : List PushResult}
      (e : Error) {es : List Error} {s : S} (m : S) {z : S}
      → IsTurn p domain rr s (r, some e, m)
      → r.status ≡ failed
      → IsAccounted p domain rrs m rs es z
      → IsAccounted p domain (rr ∷ rrs) s (r ∷ rs) (e ∷ es) z

one_more :
    {S : Type 0} (p : Provider S) (domain : Bytes) (rr : ResolvedRecord) (rrs : List ResolvedRecord)
    (s : S) (o : Outcome S) (rs : List PushResult) (es : List Error) (z : S)
    → IsTurn p domain rr s o
    → IsHonest o
    → IsAccounted p domain rrs o.2 rs es z
    → IsAccounted p domain (rr ∷ rrs) s (o.0 ∷ rs) (errors_of o.1 ++ es) z
one_more p domain rr rrs s (r, none, m) rs es z t (clean h d) k = settled rr r m t d k
one_more p domain rr rrs s (r, none, m) rs es z t (broken e h d) k = cc
one_more p domain rr rrs s (r, some x, m) rs es z t (clean h d) k = cc
one_more p domain rr rrs s (r, some x, m) rs es z t (broken e h d) k = broke rr r x m t d k

-- Either the template was refused, its error is the only one, and the provider was not called; or
-- every resolved record has its result.
pub record IsReport {S : Type 0} (p : Provider S) (domain : Bytes)
    (resolved : Result (List ResolvedRecord)) (s : S) (r : Report S) : Type 0 where
  pub outcome :
      ((e : Error) × (resolved ≡ err e) × (r.results ≡ []) × (r.errors ≡ e ∷ []) × (r.state ≡ s))
      ⊎ ((rrs : List ResolvedRecord) × (resolved ≡ ok rrs)
          × IsAccounted p domain rrs s r.results r.errors r.state)

module _ {S : Type 0} (p : Provider S) (verify : Verifier S) (domain : Bytes) where
  dispatch_spfm-IsHonest :
      (rec : Record) (include : Bytes) (s : S)
      → IsHonest (dispatch_spfm p verify domain rec include s)
  unfolding dispatch_spfm
  dispatch_spfm-IsHonest rec include s =
      if_rule IsHonest (is_empty include) _ _ (clean refl refl)
        (pushes-IsHonest p verify domain rec [] [] (include ∷ []) s).3

  dispatch_record-IsHonest :
      (rec : Record) (s : S) → IsHonest (dispatch_record p verify domain rec s)
  unfolding dispatch_record
  dispatch_record-IsHonest rec s =
      let pushed = pushes-IsHonest p verify domain rec rec.name rec.content [] s in
      if_rule IsHonest (str_eq rec.typ (codes "TXT")) _ _ pushed.1 (
        if_rule IsHonest (str_eq rec.typ (codes "CNAME")) _ _ pushed.2 (
          if_rule IsHonest (str_eq rec.typ (codes "SPFM")) _ _
            (dispatch_spfm-IsHonest rec (extract_include rec.content) s)
            (if_rule IsHonest (is_generic rec.typ) _ _ pushed.0 (broken _ refl refl))))

  after_conflicts-IsHonest :
      (rr : ResolvedRecord) (c : List Warning × Cleared S)
      → IsHonest (after_conflicts p verify domain rr c).1
  unfolding after_conflicts failed_result
  after_conflicts-IsHonest rr (ws, (some e, s)) = broken e refl refl
  after_conflicts-IsHonest rr (ws, (none, s)) = dispatch_record-IsHonest rr.rec s

  apply_record-IsHonest :
      (rr : ResolvedRecord) (s : S) → IsHonest (apply_record p verify domain rr s).1
  unfolding apply_record
  apply_record-IsHonest rr s =
      after_conflicts-IsHonest rr
        (if has_mode rr then apply_conflicts p domain rr s else ([], (none, s)))

  apply_all-IsAccounted :
      (rrs : List ResolvedRecord) (s : S)
      → IsAccounted p domain rrs s
          (apply_all p verify domain rrs s).results
          (apply_all p verify domain rrs s).errors
          (apply_all p verify domain rrs s).state
  unfolding apply_all
  apply_all-IsAccounted [] s = nothing s
  apply_all-IsAccounted (rr ∷ rrs) s =
      one_more p domain rr rrs s (apply_record p verify domain rr s).1 _ _ _
        (apply_record-IsTurn p verify domain rr s) (apply_record-IsHonest rr s)
        (apply_all-IsAccounted rrs (apply_record p verify domain rr s).1.2)

  after_resolve-IsReport :
      (resolved : Result (List ResolvedRecord)) (s : S)
      → IsReport p domain resolved s (after_resolve p verify domain resolved s)
  unfolding after_resolve
  after_resolve-IsReport (err e) s = record { outcome = inl (e, refl, refl, refl, refl) }
  after_resolve-IsReport (ok rrs) s = record {
    outcome = inr (rrs, refl, apply_all-IsAccounted rrs s);
  }

  -- Where the template does not resolve, its error is the only one and the provider is not called;
  -- else every resolved record has one result, in order, and its turn starts in the state that the
  -- turn before it left. A record whose conflicts could not be read or deleted fails with that
  -- error; a TXT, CNAME or generic record is reported by its name and content: after the records of
  -- its type were read it is there already (the same host for a CNAME) or was written with its
  -- type, name and content, or the call that failed gives the error; an SPFM record has its include
  -- merged into the SPF record of the domain in the same way, or asks for nothing; any other type
  -- is refused. A turn without an error is reported as created, updated or already there, and any
  -- other one as failed.
  pub apply_template-IsReport :
      (parse_ip : Bytes → Option Ip) (records : List TemplateRecord) (vars : Vars) (s : S)
      → IsReport p domain
          (resolve_detailed parse_ip records vars)
          s
          (apply_template_with_report p verify domain parse_ip records vars s)
  unfolding apply_template_with_report
  apply_template-IsReport parse_ip records vars s =
      after_resolve-IsReport (resolve_detailed parse_ip records vars) s
