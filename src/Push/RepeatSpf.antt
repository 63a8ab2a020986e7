-- ===== src/Push/RepeatSpf.antt =====
-- Pushing the same SPF includes twice over a lawful provider.
use dns_entree.Base.{
  Bool, true, false, List, [], none, some, if◌then◌else◌, find?, not, ◌≡◌, refl, ◌∙◌, inl, inr,
  Bool-cases, arith, find?-passes, find?-stronger, All, &&_parts,
}
use dns_entree.Text.{Bytes, codes, str_eq, has_prefix, to_lower, Lacks, space}
use dns_entree.Record.{Record, Provider, plain}
use dns_entree.Record.Errors.{Result, ok, err}
use dns_entree.Spf.Merge.{merge_value, version}
use dns_entree.Push.Steps.{
  PushStatus, already_configured, created, updated, PushResult, fresh_result, VerifyOpts, Verifier,
  Outcome, find_record, after_read, after_write, verified_result, write_and_verify,
}
use dns_entree.Push.{
  default_ttl, is_apex_spf, current_spf, settle_spf, merge_spf_records, push_spf_record,
}
use dns_entree.Spf.Idempotent.{merge_value-IsSettled, merge_value_idem}
use dns_entree.Push.Laws.{IsLawful}

verified-value :
    (r : PushResult) (seen : Result Bool) → (verified_result r seen).record_value ≡ r.record_value
unfolding verified_result
verified-value r (err e) = refl
verified-value r (ok true) = refl
verified-value r (ok false) = refl

apex_name :
    (domain : Bytes) (x : Record) → is_apex_spf domain x ≡ true → str_eq x.name domain ≡ true
unfolding is_apex_spf
apex_name domain x h = (&&_parts _ _ h).0

module _ {S : Type 0} (p : Provider S) (laws : IsLawful p) (verify : Verifier S)
    (domain : Bytes) where
  spf_reads :
      (includes : List Bytes) (s : S)
      → push_spf_record p verify domain includes s
        ≡ merge_spf_records p verify domain includes (laws.view domain (codes "TXT") s) s
  unfolding push_spf_record after_read
  spf_reads includes s = rw laws.reads

  -- A push over an SPF record that the merge leaves alone.
  spf_unchanged :
      (includes : List Bytes) (v : Bytes) (s : S)
      → current_spf domain (laws.view domain (codes "TXT") s) ≡ v
      → merge_value v includes ≡ record { value = v; changed = false; broken = false }
      → push_spf_record p verify domain includes s ≡ (
        record (fresh_result domain v) { status = already_configured; previous_value = v },
        none,
        s,
      )
  unfolding merge_spf_records settle_spf
  spf_unchanged includes v s c m = rw (spf_reads includes s, c, m)

  -- The record that was set is the current SPF record.
  stored_current :
      (includes : List Bytes) (v : Bytes) (s : S)
      → has_prefix (to_lower v) version ≡ true
      → (p.set_record domain (plain (codes "TXT") domain v default_ttl) s).0 ≡ ok tt
      → current_spf domain (
          laws.view domain
            (codes "TXT")
            (p.set_record domain (plain (codes "TXT") domain v default_ttl) s).1)
        ≡ v
  unfolding current_spf
  stored_current includes v s spf done =
      let wanted = plain (codes "TXT") domain v default_ttl in
      let (r, found, c, _) = laws.stored domain wanted s done in
      let rs = laws.view domain (codes "TXT") (p.set_record domain wanted s).1 in
      let named : str_eq r.name domain ≡ true =
        unfold find_record in find?-passes (λ x. str_eq x.name domain) rs r found in
      let apex : is_apex_spf domain r ≡ true = unfold is_apex_spf in rw (named, c, spf) in
      let first : find? (is_apex_spf domain) rs ≡ some r =
        unfold find_record in
        find?-stronger (λ x. str_eq x.name domain) (is_apex_spf domain) (apex_name domain) rs r
          found apex in
      rw first c

  abbrev pub Again : List Bytes → Outcome S → Type 0
  Again includes first =
      ((push_spf_record p verify domain includes first.2).0.status ≡ already_configured)
      × ((push_spf_record p verify domain includes first.2).0.record_value ≡ first.0.record_value)
      × ((push_spf_record p verify domain includes first.2).1 ≡ none)
      × ((push_spf_record p verify domain includes first.2).2 ≡ first.2)

  -- A push that wrote the merged value finds it.
  written-Again :
      (includes : List Bytes) (current : Bytes) (s : S)
      → All (Lacks space) includes
      → (opts : VerifyOpts) (found : Bool)
      → (write_and_verify p verify domain
          (plain (codes "TXT") domain (merge_value current includes).value default_ttl)
          opts
          found
          (record (fresh_result domain (merge_value current includes).value) {
            previous_value = current;
          })
          s).1
        ≡ none
      → Again includes (
          write_and_verify p verify domain
            (plain (codes "TXT") domain (merge_value current includes).value default_ttl)
            opts
            found
            (record (fresh_result domain (merge_value current includes).value) {
              previous_value = current;
            })
            s)
  unfolding write_and_verify
  written-Again includes current s l opts found h = go (p.set_record domain wanted s) h again
    where
      v : Bytes
      v = (merge_value current includes).value

      wanted : Record
      wanted = plain (codes "TXT") domain v default_ttl

      result : PushResult
      result = record (fresh_result domain v) { previous_value = current }

      status : PushStatus
      status = if found then updated else created

      again :
          (p.set_record domain wanted s).0 ≡ ok tt
          → push_spf_record p verify domain includes (p.set_record domain wanted s).1 ≡ (
            record (fresh_result domain v) { status = already_configured; previous_value = v },
            none,
            (p.set_record domain wanted s).1,
          )
      again done =
          spf_unchanged includes v _
            (stored_current includes v s (merge_value-IsSettled current includes l).spf done)
            (merge_value_idem current includes l)

      go :
          (w : Result (Unit {0}) × S)
          → (after_write w status result (verify domain opts)).1 ≡ none
          → (w.0 ≡ ok tt
              → push_spf_record p verify domain includes w.1 ≡ (
                record (fresh_result domain v) { status = already_configured; previous_value = v },
                none,
                w.1,
              ))
          → Again includes (after_write w status result (verify domain opts))
      go (err e, s') k a = absurd (ground arith)
      go (ok u, s') k a =
          rw (a refl, verified-value (record result { status = status }) (verify domain opts s'))
            (refl, refl, refl, refl)

  settle-Again :
      (includes : List Bytes) (s : S)
      → All (Lacks space) includes
      → (push_spf_record p verify domain includes s).1 ≡ none
      → Again includes (push_spf_record p verify domain includes s)
  unfolding merge_spf_records settle_spf
  settle-Again includes s l h = elim (Bool-cases (merge_value current includes).changed) [
    | inl y ↦ rw (first y) (written-Again includes current s l _ _ (rw (first y) at h))
    | inr n ↦ rw (unchanged n, unchanged n) (refl, refl, refl, refl)
  ]
    where
      current : Bytes
      current = current_spf domain (laws.view domain (codes "TXT") s)

      first :
          (merge_value current includes).changed ≡ true
          → push_spf_record p verify domain includes s
            ≡ write_and_verify p verify domain
                (plain (codes "TXT") domain (merge_value current includes).value default_ttl)
                (record { record_type = codes "TXT"; name = domain; wanted = codes "v=spf1" })
                (not (str_eq current []))
                (record (fresh_result domain (merge_value current includes).value) {
                  previous_value = current;
                })
                s
      first y = spf_reads includes s ∙ rw y

      unchanged :
          (merge_value current includes).changed ≡ false
          → push_spf_record p verify domain includes s ≡ (
            record (fresh_result domain (merge_value current includes).value) {
              status = already_configured;
              previous_value = current;
            },
            none,
            s,
          )
      unchanged n = spf_reads includes s ∙ rw n

  -- With a provider that reads back, as the first of its name, what it stored, and includes without a
  -- space: after an SPF push that reports no error, the same push again reports the value that was
  -- pushed as there already, with no error, and leaves the provider's state as it is.
  pub push_spf_twice :
      (includes : List Bytes) (s : S)
      → All (Lacks space) includes
      → (push_spf_record p verify domain includes s).1 ≡ none
      → Again includes (push_spf_record p verify domain includes s)
  push_spf_twice includes s l h = settle-Again includes s l h
