-- ===== src/Push.antt =====
-- push.go: idempotent pushes with a check afterwards, over any provider.
pub mod Steps
pub mod Laws
pub mod Outcomes
pub mod Repeat
pub mod RepeatSpf
pub mod Apply
pub mod Fake
mod Tests
use dns_entree.Base.{
  ℤ, Bool, true, false, List, [], ◌∷◌, ◌++◌, Option, none, some, if◌then◌else◌, find?, int_eq, ◌&&◌,
  ◌||◌, not,
}
use dns_entree.Text.{Bytes, codes, str_eq, has_prefix, to_lower, is_some}
use dns_entree.Record.{Record, Provider, plain}
use dns_entree.Record.Errors.{Error, get_failed, use_typed_push, unsupported_type, Result, ok, err}
use dns_entree.Spf.Merge.{Merged, merge_value}
use Steps.{
  PushStatus, already_configured, failed, PushResult, fresh_result, VerifyOpts, Verifier, Outcome,
  find_record, content_of, after_read, normalize_host, fingerprint, write_and_verify,
}

abbrev pub default_ttl : ℤ
default_ttl = ℤ.pos 300

unfoldable pub is_generic : Bytes → Bool
is_generic t =
    str_eq t (codes "A")
    || (str_eq t (codes "AAAA")
        || (str_eq t (codes "MX") || (str_eq t (codes "NS") || str_eq t (codes "SRV"))))

unfoldable pub is_typed : Bytes → Bool
is_typed t = str_eq t (codes "TXT") || str_eq t (codes "CNAME")

unfoldable pub same_content : Option Record → Bytes → Bool
same_content none content = false
same_content (some r) content = str_eq r.content content

unfoldable pub same_record : Option Record → Record → Bool
same_record none wanted = false
same_record (some r) wanted =
    str_eq r.content wanted.content
    && (not (str_eq wanted.typ (codes "MX")) || int_eq r.priority wanted.priority)

unfoldable pub same_host : Option Record → Bytes → Bool
same_host none target = false
same_host (some r) target = str_eq (normalize_host r.content) (normalize_host target)

-- `if record.TTL == 0 { record.TTL = 300 }`
unfoldable pub with_ttl : Record → Record
with_ttl r = if int_eq r.ttl (ℤ.pos 0) then record r { ttl = default_ttl } else r

-- The first apex TXT value that starts as an SPF record, the empty text where there is none.
unfoldable pub is_apex_spf : Bytes → Record → Bool
is_apex_spf domain r = str_eq r.name domain && has_prefix (to_lower r.content) (codes "v=spf1")

unfoldable pub current_spf : Bytes → List Record → Bytes
unfolding is_apex_spf
current_spf domain records = content_of (find? (is_apex_spf domain) records)

module _ {S : Type 0} (p : Provider S) (verify : Verifier S) (domain : Bytes) where
  -- Nothing is written where the wanted record is there.
  unfoldable pub settle : Bool → Option Record → Record → VerifyOpts → PushResult → S → Outcome S
  unfolding write_and_verify
  settle same existing wanted opts result s =
      if same
      then (record result { status = already_configured }, none, s)
      else write_and_verify p verify domain wanted opts (is_some existing)
          (record result { previous_value = content_of existing }) s

  unfoldable pub settle_generic : Record → List Record → S → Outcome S
  unfolding settle same_record with_ttl find_record fingerprint
  settle_generic wanted records s =
      let existing = find_record records wanted.name in
      settle (same_record existing wanted) existing (with_ttl wanted)
        (record {
          record_type = wanted.typ;
          name = wanted.name;
          wanted = fingerprint wanted.content;
        })
        (fresh_result wanted.name wanted.content) s

  unfoldable pub push_generic_record : Record → S → Outcome S
  unfolding is_generic is_typed settle_generic after_read
  push_generic_record wanted s =
      if is_generic wanted.typ
      then after_read (p.get_records domain wanted.typ s) (fresh_result wanted.name wanted.content)
          (settle_generic wanted)
      else (
        record (fresh_result wanted.name wanted.content) { status = failed },
        some ((if is_typed wanted.typ then use_typed_push else unsupported_type) wanted.typ),
        s,
      )

  unfoldable pub settle_txt : Bytes → Bytes → List Record → S → Outcome S
  unfolding settle same_content find_record fingerprint
  settle_txt name content records s =
      let existing = find_record records name in
      settle (same_content existing content) existing (plain (codes "TXT") name content default_ttl)
        (record { record_type = codes "TXT"; name = name; wanted = fingerprint content })
        (fresh_result name content) s

  unfoldable pub push_txt_record : Bytes → Bytes → S → Outcome S
  unfolding settle_txt after_read
  push_txt_record name content s =
      after_read (p.get_records domain (codes "TXT") s) (fresh_result name content)
        (settle_txt name content)

  unfoldable pub settle_spf : Merged → Bytes → S → Outcome S
  unfolding write_and_verify
  settle_spf merge current s =
      let result = record (fresh_result domain merge.value) { previous_value = current } in
      if not merge.changed
      then (record result { status = already_configured }, none, s)
      else write_and_verify p verify domain (plain (codes "TXT") domain merge.value default_ttl)
          (record { record_type = codes "TXT"; name = domain; wanted = codes "v=spf1" })
          (not (str_eq current [])) result s

  unfoldable pub merge_spf_records : List Bytes → List Record → S → Outcome S
  unfolding settle_spf current_spf
  merge_spf_records includes records s =
      let current = current_spf domain records in
      settle_spf (merge_value current includes) current s

  unfoldable pub push_spf_record : List Bytes → S → Outcome S
  unfolding merge_spf_records after_read
  push_spf_record includes s =
      after_read (p.get_records domain (codes "TXT") s) (fresh_result domain [])
        (merge_spf_records includes)

  unfoldable pub settle_cname : Bytes → Bytes → List Record → S → Outcome S
  unfolding settle same_host find_record normalize_host
  settle_cname name target records s =
      let existing = find_record records name in
      settle (same_host existing target) existing (plain (codes "CNAME") name target default_ttl)
        (record { record_type = codes "CNAME"; name = name; wanted = normalize_host target })
        (fresh_result name target) s

  unfoldable pub push_cname_record : Bytes → Bytes → S → Outcome S
  unfolding settle_cname after_read
  push_cname_record name target s =
      after_read (p.get_records domain (codes "CNAME") s) (fresh_result name target)
        (settle_cname name target)
