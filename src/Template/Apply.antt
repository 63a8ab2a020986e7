-- ===== src/Template/Apply.antt =====
-- apply.go of package template: the resolved records pushed one by one, each after the TXT records
-- that its conflict mode names are deleted.
pub mod Laws
pub mod Fates
pub mod Turns
pub mod Conflicts
mod Tests
use dns_entree.Base.{
  ℕ, ◌+◌, Bool, true, false, ◌&&◌, ◌||◌, not, List, [], ◌∷◌, ◌++◌, Option, none, some, drop, length,
  select, map, ◌==◌, if◌then◌else◌,
}
use dns_entree.Text.{Bytes, codes, str_eq, has_prefix, index, trim_space, is_some}
use dns_entree.Record.{Record, Provider}
use dns_entree.Record.Errors.{Error, other, get_failed, unsupported_type, Result, ok, err}
use dns_entree.Push.Steps.{failed, already_configured, PushResult, fresh_result, Verifier, Outcome}
use dns_entree.Push.{
  is_generic, push_generic_record, push_txt_record, push_cname_record, push_spf_record,
}
use dns_entree.Validate.{Ip}
use dns_entree.Template.Types.{TemplateRecord}
use dns_entree.Template.Names.{is_empty, is_apex}
use dns_entree.Template.Substitute.{Vars}
use dns_entree.Template.Resolve.{ResolvedRecord, resolve_detailed}

unfoldable pub is_apex_name : Bytes → Bytes → Bool
unfolding is_apex
is_apex_name name domain = is_apex name || str_eq name domain

-- `rest[:strings.IndexAny(rest, " \t")]`, or all of it.
unfoldable pub until_space : Bytes → Bytes
until_space [] = []
until_space (c ∷ s) = let rest = until_space s in if c == 32 || c == 9 then [] else c ∷ rest

unfoldable pub include_at : Option ℕ → Bytes → Bytes
unfolding until_space
include_at none s = s
include_at (some i) s = until_space (drop (i + 8) s)

unfoldable pub extract_include : Bytes → Bytes
unfolding is_empty include_at
extract_include spf_data =
    let s = trim_space spf_data in
    if is_empty s then [] else include_at (index s (codes "include:")) s

-- The records of other names, and those that the mode does not name, are passed over.
unfoldable pub matches_mode : ResolvedRecord → Record → Bool
unfolding is_empty
matches_mode rr e =
    if str_eq rr.mode (codes "Prefix")
    then not (is_empty rr.prefix) && has_prefix e.content rr.prefix
    else if str_eq rr.mode (codes "Exact")
    then str_eq e.content rr.rec.content
    else str_eq rr.mode (codes "All")

unfoldable pub is_conflict : ResolvedRecord → Record → Bool
unfolding matches_mode
is_conflict rr e = str_eq e.name rr.rec.name && matches_mode rr e

-- The warning on the mode `All` at the apex, with the contents that it deletes.
pub record Warning : Type 0 where
  pub name : Bytes
  pub clobbered : List Bytes

unfoldable pub warn : Bytes → List Bytes → List Warning
warn name [] = []
warn name (c ∷ cs) = record { name = name; clobbered = c ∷ cs } ∷ []

unfoldable pub apex_warnings : Bytes → ResolvedRecord → List Record → List Warning
unfolding is_apex_name warn
apex_warnings domain rr existing =
    if str_eq rr.mode (codes "All") && is_apex_name rr.rec.name domain
    then warn rr.rec.name (map (λ e. e.content) (select (λ e. str_eq e.name rr.rec.name) existing))
    else []

-- Conflict resolution is for TXT records with a mode other than `None`.
unfoldable pub has_mode : ResolvedRecord → Bool
unfolding is_empty
has_mode rr =
    str_eq rr.rec.typ (codes "TXT")
    && (not (is_empty rr.mode) && not (str_eq rr.mode (codes "None")))

unfoldable pub failed_result : ResolvedRecord → PushResult
failed_result rr = record (fresh_result rr.rec.name rr.rec.content) { status = failed }

abbrev pub errors_of : Option Error → List Error
errors_of none = []
errors_of (some e) = e ∷ []

-- What `ApplyTemplateWithReport` returns, with the state of the provider; the joined error is nil
-- where there are no errors.
pub record Report (S : Type 0) : Type 0 where
  pub results : List PushResult
  pub warnings : List Warning
  pub errors : List Error
  pub state : S

abbrev pub Cleared : Type 0 → Type 0
Cleared S = Option Error × S

module _ {S : Type 0} (p : Provider S) (domain : Bytes) where
  unfoldable pub after_delete : Result (Unit {0}) × S → (S → Cleared S) → Cleared S
  after_delete (err e, s) rest = (some e, s)
  after_delete (ok u, s) rest = rest s

  unfoldable pub delete_conflicts : ResolvedRecord → List Record → S → Cleared S
  unfolding is_conflict after_delete
  delete_conflicts rr [] s = (none, s)
  delete_conflicts rr (e ∷ es) s =
      let rest = delete_conflicts rr es in
      if is_conflict rr e then after_delete (p.delete_record domain e.id s) rest else rest s

  unfoldable pub after_list : ResolvedRecord → Result (List Record) × S → List Warning × Cleared S
  unfolding apex_warnings delete_conflicts
  after_list rr (err e, s) = ([], (some (get_failed e), s))
  after_list rr (ok existing, s) =
      (apex_warnings domain rr existing, delete_conflicts rr existing s)

  unfoldable pub apply_conflicts : ResolvedRecord → S → List Warning × Cleared S
  unfolding after_list
  apply_conflicts rr s = after_list rr (p.get_records domain (codes "TXT") s)

module _ {S : Type 0} (p : Provider S) (verify : Verifier S) (domain : Bytes) where
  unfoldable pub dispatch_spfm : Record → Bytes → S → Outcome S
  unfolding is_empty push_spf_record
  dispatch_spfm rec include s =
      if is_empty include
      then (record (fresh_result rec.name []) { status = already_configured }, none, s)
      else push_spf_record p verify domain (include ∷ []) s

  unfoldable pub dispatch_record : Record → S → Outcome S
  unfolding push_txt_record push_cname_record push_generic_record extract_include dispatch_spfm
      is_generic
  dispatch_record rec s =
      if str_eq rec.typ (codes "TXT")
      then push_txt_record p verify domain rec.name rec.content s
      else if str_eq rec.typ (codes "CNAME")
      then push_cname_record p verify domain rec.name rec.content s
      else if str_eq rec.typ (codes "SPFM")
      then dispatch_spfm rec (extract_include rec.content) s
      else if is_generic rec.typ
      then push_generic_record p verify domain rec s
      else (
        record (fresh_result rec.name rec.content) { status = failed },
        some (unsupported_type rec.typ),
        s,
      )

  -- One turn of the loop. A push always returns a result, so the test for nil is left out.
  unfoldable pub after_conflicts :
      ResolvedRecord → List Warning × Cleared S → List Warning × Outcome S
  unfolding failed_result dispatch_record
  after_conflicts rr (ws, (some e, s)) = (ws, (failed_result rr, some e, s))
  after_conflicts rr (ws, (none, s)) = (ws, dispatch_record rr.rec s)

  unfoldable pub apply_record : ResolvedRecord → S → List Warning × Outcome S
  unfolding has_mode after_conflicts apply_conflicts
  apply_record rr s =
      after_conflicts rr (if has_mode rr then apply_conflicts p domain rr s else ([], (none, s)))

  unfoldable pub apply_all : List ResolvedRecord → S → Report S
  unfolding apply_record
  apply_all [] s = record { results = []; warnings = []; errors = []; state = s }
  apply_all (rr ∷ rrs) s =
      let step = apply_record rr s in
      let rest = apply_all rrs step.1.2 in
      record {
        results = step.1.0 ∷ rest.results;
        warnings = step.0 ++ rest.warnings;
        errors = errors_of step.1.1 ++ rest.errors;
        state = rest.state;
      }

  unfoldable pub after_resolve : Result (List ResolvedRecord) → S → Report S
  unfolding apply_all
  after_resolve (err e) s = record { results = []; warnings = []; errors = e ∷ []; state = s }
  after_resolve (ok resolved) s = apply_all resolved s

  unfoldable pub apply_template_with_report :
      (Bytes → Option Ip) → List TemplateRecord → Vars → S → Report S
  unfolding after_resolve resolve_detailed
  apply_template_with_report parse_ip records vars s =
      after_resolve (resolve_detailed parse_ip records vars) s

  -- Without the warnings.
  unfoldable pub apply_template :
      (Bytes → Option Ip) → List TemplateRecord → Vars → S → List PushResult × List Error × S
  unfolding apply_template_with_report
  apply_template parse_ip records vars s =
      let report = apply_template_with_report parse_ip records vars s in
      (report.results, report.errors, report.state)
