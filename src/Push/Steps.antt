-- ===== src/Push/Steps.antt =====
-- The parts that the four pushes share.
use dns_entree.Base.{
  Bool, true, false, List, [], Option, none, some, if◌then◌else◌, find?, take, ltb, length,
}
use dns_entree.Text.{Bytes, codes, str_eq, to_lower, trim_space, trim_suffix}
use dns_entree.Record.{Record, Provider}
use dns_entree.Record.Errors.{Error, get_failed, set_failed, not_observed, Result, ok, err}

pub data PushStatus : Type 0 where
  unset created updated already_configured failed : PushStatus

pub record PushResult : Type 0 where
  pub status : PushStatus
  pub record_name : Bytes
  pub record_value : Bytes
  pub previous_value : Bytes
  pub verified : Bool
  pub verify_error : Option Error

abbrev pub fresh_result : Bytes → Bytes → PushResult
fresh_result name value = record {
  status = PushStatus.unset;
  record_name = name;
  record_value = value;
  previous_value = [];
  verified = false;
  verify_error = none;
}

pub record VerifyOpts : Type 0 where
  pub record_type : Bytes
  pub name : Bytes
  pub wanted : Bytes

-- `verifyFunc`: whether the record was seen, in the state of the world after the write.
abbrev pub Verifier : Type 0 → Type 0
Verifier S = Bytes → VerifyOpts → S → Result Bool

-- The result, the error, and the state of the provider.
abbrev pub Outcome : Type 0 → Type 0
Outcome S = PushResult × Option Error × S

unfoldable pub find_record : List Record → Bytes → Option Record
find_record records name = find? (λ r. str_eq r.name name) records

unfoldable pub normalize_host : Bytes → Bytes
normalize_host s = trim_suffix (to_lower (trim_space s)) (codes ".")

unfoldable pub fingerprint : Bytes → Bytes
fingerprint content = if ltb 32 (length content) then take 32 content else content

unfoldable pub verified_result : PushResult → Result Bool → PushResult
verified_result result (err e) = record result { verify_error = some e }
verified_result result (ok true) = record result { verified = true }
verified_result result (ok false) = record result {
  verified = false;
  verify_error = some not_observed;
}

abbrev pub content_of : Option Record → Bytes
content_of none = []
content_of (some r) = r.content

module _ {S : Type 0} where
  -- `GetRecords` failed, or its records are looked at.
  unfoldable pub after_read :
      Result (List Record) × S → PushResult → (List Record → S → Outcome S) → Outcome S
  after_read (err e, s) result next = (record result { status = failed }, some (get_failed e), s)
  after_read (ok records, s) result next = next records s

  unfoldable pub after_write :
      Result (Unit {0}) × S → PushStatus → PushResult → (S → Result Bool) → Outcome S
  unfolding verified_result
  after_write (err e, s) status result verify =
      (record result { status = failed }, some (set_failed e), s)
  after_write (ok _, s) new_status result verify =
      (verified_result (record result { status = new_status }) (verify s), none, s)

  -- `SetRecord`, the status, and `runVerify`.
  unfoldable pub write_and_verify :
      Provider S → Verifier S → Bytes → Record → VerifyOpts → Bool → PushResult → S → Outcome S
  unfolding after_write
  write_and_verify p verify domain rec opts found result s =
      after_write (p.set_record domain rec s) (if found then updated else created) result
        (verify domain opts)
