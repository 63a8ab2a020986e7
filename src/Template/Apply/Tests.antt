-- ===== src/Template/Apply/Tests.antt =====
-- A template that is resolved and applied to a provider in memory.
use dns_entree.Base.{ℤ, ◌≡◌, refl, false, not, List, [], ◌∷◌, ◌++◌, Option, none, some, All, select}
use dns_entree.Text.{Bytes, codes, str_eq}
use dns_entree.Record.{Record, Provider, plain}
use dns_entree.Record.Errors.{ok}
use dns_entree.Push.Steps.{Verifier}
use dns_entree.Validate.{Ip, v4}
use dns_entree.Template.Types.{FlexInt, TemplateRecord}
use dns_entree.Template.Substitute.{Vars}
use dns_entree.Template.Resolve.{ResolvedRecord, resolve_detailed}
use dns_entree.Template.Resolve.Laws.{IsSafe, resolve_detailed-IsSafe}
use dns_entree.Template.Apply.{extract_include, apply_conflicts, apply_template_with_report}
use dns_entree.Template.Apply.Laws.{IsReport, apply_template-IsReport}
use dns_entree.Template.Apply.Conflicts.{IsDeleting, is_named_by, apply_conflicts-leaves}

-- TXT records only; a record is appended, and deleted by its id.
abbrev memory : Provider (List Record)
memory = record {
  get_records = λ domain t s. (ok s, s);
  set_record = λ domain r s. (ok tt, s ++ r ∷ []);
  delete_record = λ domain id s. (ok tt, select (λ r. not (str_eq r.id id)) s);
}

abbrev memory_deleting : IsDeleting memory (codes "a.example")
memory_deleting = record { view = λ s. s; reads = λ s. refl; deleted = λ id s done. refl }

abbrev unseen : Verifier (List Record)
unseen = λ domain opts s. ok false

abbrev all_v4 : Bytes → Option Ip
all_v4 s = some v4

abbrev hour : FlexInt
hour = record { value = ℤ.pos 3600; raw = [] }

abbrev proof_record : TemplateRecord
proof_record = record {
  typ = codes " txt";
  host = codes "%sub%";
  points_to = [];
  target = [];
  text = codes "key=%key%";
  ttl = hour;
  group_id = [];
  essential = [];
  conflict_mode = codes "Prefix";
  conflict_prefix = codes "key=";
  priority = hour;
  weight = hour;
  port = hour;
  service = [];
  protocol = [];
}

abbrev vars : Vars
vars = (codes "sub", codes "www") ∷ (codes "key", codes "1") ∷ []

abbrev resolved : ResolvedRecord
resolved = record {
  rec = plain (codes "TXT") (codes "www") (codes "key=1") (ℤ.pos 3600);
  mode = codes "Prefix";
  prefix = codes "key=";
}

proof_run : resolve_detailed all_v4 (proof_record ∷ []) vars ≡ ok (resolved ∷ [])
unfolding resolve_detailed str_eq dns_entree.Text.to_upper dns_entree.Text.trim_space
    dns_entree.Text.trim_prefix dns_entree.Text.trim_suffix dns_entree.Text.contains_any
    dns_entree.Text.split
proof_run = refl

resolve_detailed-IsSafe_example : All (λ x. IsSafe all_v4 x.rec) (resolved ∷ [])
resolve_detailed-IsSafe_example =
    resolve_detailed-IsSafe all_v4 (proof_record ∷ []) vars (resolved ∷ []) proof_run

abbrev with_id : Bytes → Bytes → Record
with_id id content = record (plain (codes "TXT") (codes "www") content (ℤ.pos 60)) { id = id }

abbrev stored : List Record
stored = with_id (codes "1") (codes "key=0") ∷ with_id (codes "2") (codes "v=spf1 -all") ∷ []

conflicts_run :
    apply_conflicts memory (codes "a.example") resolved stored
    ≡ ([], (none, with_id (codes "2") (codes "v=spf1 -all") ∷ []))
unfolding apply_conflicts str_eq dns_entree.Text.has_prefix
conflicts_run = refl

conflicts_none : (apply_conflicts memory (codes "a.example") resolved stored).1.0 ≡ none
unfolding apply_conflicts str_eq dns_entree.Text.has_prefix
conflicts_none = refl

apply_conflicts-leaves_example :
    (apply_conflicts memory (codes "a.example") resolved stored).1.1
    ≡ select (λ r. not (is_named_by resolved stored r)) stored
apply_conflicts-leaves_example =
    apply_conflicts-leaves memory (codes "a.example") memory_deleting resolved stored conflicts_none

apply_template-IsReport_example :
    IsReport memory (codes "a.example") (resolve_detailed all_v4 (proof_record ∷ []) vars) stored (
      apply_template_with_report memory unseen
        (codes "a.example")
        all_v4
        (proof_record ∷ [])
        vars
        stored)
apply_template-IsReport_example =
    apply_template-IsReport memory unseen (codes "a.example") all_v4 (proof_record ∷ []) vars stored

include_run : extract_include (codes " v=spf1 include:b.example ~all") ≡ codes "b.example"
unfolding extract_include dns_entree.Text.trim_space dns_entree.Text.index
include_run = refl
