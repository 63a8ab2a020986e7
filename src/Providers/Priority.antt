-- ===== src/Providers/Priority.antt =====
-- Pushes of MX records through a back end, by the priorities that it reads.
use dns_entree.Base.{
  ℤ, ◌≡◌, ◌≢◌, refl, Bool, true, false, List, [], ◌∷◌, Option, none, some, if◌then◌else◌, int_eq,
  int_eq_iff, find?, arith, All,
}
use dns_entree.Text.{Bytes, codes, str_eq}
use dns_entree.Record.{Record, Provider}
use dns_entree.Record.Errors.{Result, ok, err}
use dns_entree.Push.Steps.{
  PushStatus, created, updated, fresh_result, Verifier, PushResult, find_record, after_read,
  after_write, write_and_verify,
}
use dns_entree.Push.{is_generic, same_record, settle, settle_generic, push_generic_record}
use dns_entree.Push.Outcomes.{verified_result-status}

abbrev pub NoPriority : Record → Type 0
NoPriority r = r.priority ≡ ℤ.pos 0

abbrev pub ReadNoPriority : Result (List Record) → Type 0
ReadNoPriority (err e) = Unit
ReadNoPriority (ok rs) = All NoPriority rs

found_NoPriority :
    (p : Record → Bool) (rs : List Record)
    → All NoPriority rs
    → (r : Record) → find? p rs ≡ some r
    → NoPriority r
found_NoPriority p [] h r e = cc
found_NoPriority p (x ∷ rs) (hx, h) r e = ground (arith, found_NoPriority p rs h r)

differs :
    (x : Option Record) (wanted : Record)
    → ((r : Record) → x ≡ some r → NoPriority r)
    → str_eq wanted.typ (codes "MX") ≡ true
    → int_eq (ℤ.pos 0) wanted.priority ≡ false
    → same_record x wanted ≡ false
unfolding same_record
differs none wanted h mx e = refl
differs (some r) wanted h mx e = rw (h r refl, mx, e) (ground arith)

abbrev pub is_written : PushStatus → Bool
is_written PushStatus.already_configured = false
is_written _ = true

mx-generic : (t : Bytes) → str_eq t (codes "MX") ≡ true → is_generic t ≡ true
unfolding is_generic
mx-generic t mx = ground arith

not_zero : (x : ℤ) → x ≢ ℤ.pos 0 → int_eq (ℤ.pos 0) x ≡ false
not_zero x d = ground (arith, int_eq_iff (ℤ.pos 0) x)

module _ {S : Type 0} (p : Provider S) (verify : Verifier S) (domain : Bytes) where
  after_write-Written :
      (w : Result (Unit {0}) × S) (found : Bool) (result : PushResult) (seen : S → Result Bool)
      → is_written (after_write w (if found then updated else created) result seen).0.status ≡ true
  unfolding after_write
  after_write-Written (err e, s) found result seen = refl
  after_write-Written (ok u, s) true result seen = rw verified_result-status
  after_write-Written (ok u, s) false result seen = rw verified_result-status

  settle_generic-Written :
      (wanted : Record) (rs : List Record) (s : S)
      → All NoPriority rs
      → str_eq wanted.typ (codes "MX") ≡ true
      → int_eq (ℤ.pos 0) wanted.priority ≡ false
      → is_written (settle_generic p verify domain wanted rs s).0.status ≡ true
  unfolding settle_generic settle find_record write_and_verify
  settle_generic-Written wanted rs s h mx e =
      rw
        (differs (find? (λ r. str_eq r.name wanted.name) rs) wanted
          (found_NoPriority (λ r. str_eq r.name wanted.name) rs h) mx e)
        (search after_write-Written)

  read-Written :
      (wanted : Record) (g : Result (List Record) × S)
      → ReadNoPriority g.0
      → str_eq wanted.typ (codes "MX") ≡ true
      → int_eq (ℤ.pos 0) wanted.priority ≡ false
      → is_written
          (after_read g
            (fresh_result wanted.name wanted.content)
            (settle_generic p verify domain wanted)).0.status
        ≡ true
  unfolding after_read
  read-Written wanted (err e, s) h mx d = refl
  read-Written wanted (ok rs, s) h mx d = settle_generic-Written wanted rs s h mx d

  pub push_mx-Written :
      (wanted : Record) (s : S)
      → ReadNoPriority (p.get_records domain wanted.typ s).0
      → str_eq wanted.typ (codes "MX") ≡ true
      → wanted.priority ≢ ℤ.pos 0
      → is_written (push_generic_record p verify domain wanted s).0.status ≡ true
  unfolding push_generic_record
  push_mx-Written wanted s h mx d =
      rw (mx-generic wanted.typ mx)
        (read-Written wanted (p.get_records domain wanted.typ s) h mx (not_zero wanted.priority d))
