-- ===== src/Push/Outcomes.antt =====
-- What the four pushes report, on every path.
use dns_entree.Base.{
  Bool, true, false, List, Option, none, some, if◌then◌else◌, not, ◌≡◌, refl, if_rule,
}
use dns_entree.Text.{Bytes, codes}
use dns_entree.Record.{Record, Provider}
use dns_entree.Record.Errors.{Error, get_failed, set_failed, Result, ok, err}
use dns_entree.Spf.Merge.{Merged, merge_value}
use dns_entree.Push.Steps.{
  PushStatus, failed, created, updated, PushResult, VerifyOpts, Verifier, Outcome, after_read,
  after_write, verified_result,
}
use dns_entree.Push.{
  is_generic, current_spf, settle, settle_generic, push_generic_record, settle_txt, push_txt_record,
  settle_spf, merge_spf_records, push_spf_record, settle_cname, push_cname_record,
}

abbrev pub is_done : PushStatus → Bool
is_done PushStatus.created = true
is_done PushStatus.updated = true
is_done PushStatus.already_configured = true
is_done _ = false

-- Either there is no error and the record is created, updated or already there, or there is an
-- error and the status is `failed`.
pub data IsHonest {S : Type 0} (o : Outcome S) : Type 0 where
  clean : o.1 ≡ none → is_done o.0.status ≡ true → IsHonest o
  broken : (e : Error) → o.1 ≡ some e → o.0.status ≡ failed → IsHonest o

pub verified_result-status :
    (r : PushResult) (seen : Result Bool) → (verified_result r seen).status ≡ r.status
unfolding verified_result
verified_result-status r (err e) = refl
verified_result-status r (ok true) = refl
verified_result-status r (ok false) = refl

module _ {S : Type 0} where
  after_write-IsHonest :
      (w : Result (Unit {0}) × S) (found : Bool) (result : PushResult) (verify : S → Result Bool)
      → IsHonest (after_write w (if found then updated else created) result verify)
  unfolding after_write
  after_write-IsHonest (err e, s) found result verify = broken (set_failed e) refl refl
  after_write-IsHonest (ok u, s) true result verify = clean refl (rw verified_result-status)
  after_write-IsHonest (ok u, s) false result verify = clean refl (rw verified_result-status)

  after_read-IsHonest :
      (g : Result (List Record) × S) (result : PushResult) (next : List Record → S → Outcome S)
      → ((rs : List Record) (s : S) → IsHonest (next rs s))
      → IsHonest (after_read g result next)
  unfolding after_read
  after_read-IsHonest (err e, s) result next h = broken (get_failed e) refl refl
  after_read-IsHonest (ok rs, s) result next h = h rs s

module _ {S : Type 0} (p : Provider S) (verify : Verifier S) (domain : Bytes) where
  settle-IsHonest :
      (same : Bool) (existing : Option Record) (wanted : Record) (opts : VerifyOpts)
      (result : PushResult) (s : S)
      → IsHonest (settle p verify domain same existing wanted opts result s)
  unfolding settle
  settle-IsHonest true existing wanted opts result s = clean refl refl
  settle-IsHonest false existing wanted opts result s =
      after_write-IsHonest (p.set_record domain wanted s) _ _ _

  push_txt-IsHonest :
      (name content : Bytes) (s : S) → IsHonest (push_txt_record p verify domain name content s)
  unfolding push_txt_record settle_txt
  push_txt-IsHonest name content s =
      after_read-IsHonest (p.get_records domain (codes "TXT") s) _ _
        (λ rs s'. settle-IsHonest _ _ _ _ _ s')

  push_cname-IsHonest :
      (name target : Bytes) (s : S) → IsHonest (push_cname_record p verify domain name target s)
  unfolding push_cname_record settle_cname
  push_cname-IsHonest name target s =
      after_read-IsHonest (p.get_records domain (codes "CNAME") s) _ _
        (λ rs s'. settle-IsHonest _ _ _ _ _ s')

  push_generic-IsHonest :
      (wanted : Record) (s : S) → IsHonest (push_generic_record p verify domain wanted s)
  unfolding push_generic_record settle_generic
  push_generic-IsHonest wanted s =
      if_rule IsHonest (is_generic wanted.typ) _ _
        (after_read-IsHonest (p.get_records domain wanted.typ s) _ _
          (λ rs s'. settle-IsHonest _ _ _ _ _ s'))
        (broken _ refl refl)

  settle_spf-IsHonest :
      (m : Merged) (current : Bytes) (s : S) → IsHonest (settle_spf p verify domain m current s)
  unfolding settle_spf
  settle_spf-IsHonest m current s =
      if_rule IsHonest (not m.changed) _ _ (clean refl refl)
        (after_write-IsHonest (p.set_record domain _ s) _ _ _)

  push_spf-IsHonest :
      (includes : List Bytes) (s : S) → IsHonest (push_spf_record p verify domain includes s)
  unfolding push_spf_record merge_spf_records
  push_spf-IsHonest includes s =
      after_read-IsHonest (p.get_records domain (codes "TXT") s) _ _ (λ rs s'.
        settle_spf-IsHonest (merge_value (current_spf domain rs) includes) (current_spf domain rs)
          s')

  -- Each of the four pushes ends either with no error, and the record created, updated or already
  -- there, or with an error and the status `failed`.
  pub pushes-IsHonest :
      (wanted : Record) (name value : Bytes) (includes : List Bytes) (s : S)
      → IsHonest (push_generic_record p verify domain wanted s)
        × IsHonest (push_txt_record p verify domain name value s)
        × IsHonest (push_cname_record p verify domain name value s)
        × IsHonest (push_spf_record p verify domain includes s)
  pushes-IsHonest wanted name value includes s = (
    push_generic-IsHonest wanted s,
    push_txt-IsHonest name value s,
    push_cname-IsHonest name value s,
    push_spf-IsHonest includes s,
  )
