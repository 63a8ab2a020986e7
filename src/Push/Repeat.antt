-- ===== src/Push/Repeat.antt =====
-- Pushing twice: over a lawful provider the second push writes nothing.
use dns_entree.Base.{
  ℤ, Bool, true, false, Option, none, some, if◌then◌else◌, int_eq, ◌||◌, not, ◌≡◌, refl, ◌∙◌, inl,
  inr, ◌⊎◌, Bool-cases, arith, int_eq_iff,
}
use dns_entree.Text.{Bytes, codes, str_eq, str_eq_refl, is_some}
use dns_entree.Record.{Record, Provider, plain}
use dns_entree.Record.Errors.{Result, ok, err}
use dns_entree.Push.Steps.{
  already_configured, created, updated, PushResult, fresh_result, VerifyOpts, Verifier, Outcome,
  find_record, content_of, after_read, after_write, normalize_host, write_and_verify,
}
use dns_entree.Push.{
  default_ttl, is_generic, same_content, same_record, same_host, with_ttl, settle, settle_generic,
  push_generic_record, settle_txt, push_txt_record, settle_cname, push_cname_record,
}
use dns_entree.Push.Laws.{IsLawful}

-- A push of one record by itself.
pub data Single : Type 0 where
  txt_push cname_push : (name value : Bytes) → Single
  generic_push : (wanted : Record) → is_generic wanted.typ ≡ true → Single

abbrev pub result_of_single : Single → PushResult
result_of_single (txt_push name value) = fresh_result name value
result_of_single (cname_push name value) = fresh_result name value
result_of_single (generic_push wanted g) = fresh_result wanted.name wanted.content

module _ {S : Type 0} (p : Provider S) (laws : IsLawful p) (verify : Verifier S)
    (domain : Bytes) where
  -- The result of a push that found the record in place.
  abbrev pub in_place : PushResult → S → Outcome S
  in_place result s = (record result { status = already_configured }, none, s)

  -- The state after a settled push holds the record, where it was not there and no error came.
  settled :
      (same : Bool) (existing : Option Record) (wanted : Record) (opts : VerifyOpts)
      (result : PushResult) (s : S)
      → (settle p verify domain same existing wanted opts result s).1 ≡ none
      → ((same ≡ true) × ((settle p verify domain same existing wanted opts result s).2 ≡ s))
        ⊎ (((p.set_record domain wanted s).0 ≡ ok tt)
            × ((settle p verify domain same existing wanted opts result s).2
                ≡ (p.set_record domain wanted s).1))
  unfolding settle write_and_verify
  settled true existing wanted opts result s h = inl (refl, refl)
  settled false existing wanted opts result s h = inr (written (p.set_record domain wanted s) h)
    where
      written :
          (w : Result (Unit {0}) × S)
          → (after_write w
              (if is_some existing then updated else created)
              (record result { previous_value = content_of existing })
              (verify domain opts)).1
            ≡ none
          → (w.0 ≡ ok tt)
            × ((after_write w
                  (if is_some existing then updated else created)
                  (record result { previous_value = content_of existing })
                  (verify domain opts)).2
                ≡ w.1)
      written (err e, s') k = ground arith
      written (ok u, s') k = (refl, refl)

  settle_same :
      (same : Bool) (existing : Option Record) (wanted : Record) (opts : VerifyOpts)
      (result : PushResult) (s : S)
      → same ≡ true
      → settle p verify domain same existing wanted opts result s ≡ in_place result s
  unfolding settle
  settle_same same existing wanted opts result s e = rw e

  -- TXT.
  txt_reads :
      (name content : Bytes) (s : S)
      → push_txt_record p verify domain name content s
        ≡ settle_txt p verify domain name content (laws.view domain (codes "TXT") s) s
  unfolding push_txt_record after_read
  txt_reads name content s = rw laws.reads

  stored_content :
      (existing : Option Record) (content : Bytes)
      → (r' : Record) × (existing ≡ some r') × (r'.content ≡ content)
      → same_content existing content ≡ true
  unfolding same_content
  stored_content existing content (r', e, c) = rw (e, c) (str_eq_refl content)

  txt_in_place :
      (name content : Bytes) (s : S)
      → same_content (find_record (laws.view domain (codes "TXT") s) name) content ≡ true
      → push_txt_record p verify domain name content s ≡ in_place (fresh_result name content) s
  unfolding settle_txt
  txt_in_place name content s h = txt_reads name content s ∙ settle_same _ _ _ _ _ s h

  txt_present :
      (name content : Bytes) (s : S)
      → (push_txt_record p verify domain name content s).1 ≡ none
      → same_content
          (find_record
            (laws.view domain (codes "TXT") (push_txt_record p verify domain name content s).2)
            name)
          content
        ≡ true
  unfolding settle_txt
  txt_present name content s h =
      let rs = laws.view domain (codes "TXT") s in
      let wanted = plain (codes "TXT") name content default_ttl in
      rw (txt_reads name content s)
        (elim (settled (same_content (find_record rs name) content) (find_record rs name) wanted _ _
          s (rw (txt_reads name content s) at h)) [
            | inl (e, same_state) ↦ rw same_state e
            | inr (done, state) ↦ rw state (
                stored_content _ content
                  (let (r', found, c, _) = laws.stored domain wanted s done in (r', found, c)))
          ])

  -- With a provider that reads back, as the first of its name, what it stored: after a TXT push that
  -- reports no error, the same push again reports the record as there already, with no error, and
  -- leaves the provider's state as it is.
  pub push_txt_twice :
      (name content : Bytes) (s : S)
      → (push_txt_record p verify domain name content s).1 ≡ none
      → push_txt_record p verify domain name content
          (push_txt_record p verify domain name content s).2
        ≡ in_place (fresh_result name content) (push_txt_record p verify domain name content s).2
  push_txt_twice name content s h = txt_in_place name content _ (txt_present name content s h)

  -- CNAME.
  cname_reads :
      (name target : Bytes) (s : S)
      → push_cname_record p verify domain name target s
        ≡ settle_cname p verify domain name target (laws.view domain (codes "CNAME") s) s
  unfolding push_cname_record after_read
  cname_reads name target s = rw laws.reads

  stored_host :
      (existing : Option Record) (target : Bytes)
      → (r' : Record) × (existing ≡ some r') × (r'.content ≡ target)
      → same_host existing target ≡ true
  unfolding same_host
  stored_host existing target (r', e, c) = rw (e, c) (str_eq_refl (normalize_host target))

  cname_present :
      (name target : Bytes) (s : S)
      → (push_cname_record p verify domain name target s).1 ≡ none
      → same_host
          (find_record
            (laws.view domain (codes "CNAME") (push_cname_record p verify domain name target s).2)
            name)
          target
        ≡ true
  unfolding settle_cname
  cname_present name target s h =
      let rs = laws.view domain (codes "CNAME") s in
      let wanted = plain (codes "CNAME") name target default_ttl in
      rw (cname_reads name target s)
        (elim (settled (same_host (find_record rs name) target) (find_record rs name) wanted _ _ s
          (rw (cname_reads name target s) at h)) [
            | inl (e, same_state) ↦ rw same_state e
            | inr (done, state) ↦ rw state (
                stored_host _ target
                  (let (r', found, c, _) = laws.stored domain wanted s done in (r', found, c)))
          ])

  -- With a provider that reads back, as the first of its name, what it stored: after a CNAME push that
  -- reports no error, the same push again reports the record as there already, with no error, and
  -- leaves the provider's state as it is.
  pub push_cname_twice :
      (name target : Bytes) (s : S)
      → (push_cname_record p verify domain name target s).1 ≡ none
      → push_cname_record p verify domain name target
          (push_cname_record p verify domain name target s).2
        ≡ in_place (fresh_result name target) (push_cname_record p verify domain name target s).2
  unfolding settle_cname
  push_cname_twice name target s h =
      cname_reads name target _ ∙ settle_same _ _ _ _ _ _ (cname_present name target s h)

  -- A, AAAA, MX, NS and SRV.
  generic_reads :
      (wanted : Record) (s : S)
      → is_generic wanted.typ ≡ true
      → push_generic_record p verify domain wanted s
        ≡ settle_generic p verify domain wanted (laws.view domain wanted.typ s) s
  unfolding push_generic_record after_read
  generic_reads wanted s g = rw (g, laws.reads)

  stored_record :
      (existing : Option Record) (wanted : Record)
      → (r' : Record) × (existing ≡ some r')
        × (r'.content ≡ wanted.content)
        × (r'.priority ≡ wanted.priority)
      → same_record existing wanted ≡ true
  unfolding same_record
  stored_record existing wanted (r', e, c, q) =
      rw (e, c, q, str_eq_refl wanted.content, (int_eq_iff wanted.priority wanted.priority).1 refl)
        (or_true (not (str_eq wanted.typ (codes "MX"))))
    where
      or_true : (b : Bool) → (b || true) ≡ true
      or_true true = refl
      or_true false = refl

  -- The default for the TTL changes nothing else of the record.
  with_ttl_parts :
      (r : Record)
      → ((with_ttl r).typ ≡ r.typ)
        × ((with_ttl r).name ≡ r.name)
        × ((with_ttl r).content ≡ r.content)
        × ((with_ttl r).priority ≡ r.priority)
  unfolding with_ttl
  with_ttl_parts r = elim (Bool-cases (int_eq r.ttl (ℤ.pos 0))) [
    | inl y ↦ rw y (refl, refl, refl, refl)
    | inr n ↦ rw n (refl, refl, refl, refl)
  ]

  generic_present :
      (wanted : Record) (s : S)
      → is_generic wanted.typ ≡ true
      → (push_generic_record p verify domain wanted s).1 ≡ none
      → same_record
          (find_record
            (laws.view domain wanted.typ (push_generic_record p verify domain wanted s).2)
            wanted.name)
          wanted
        ≡ true
  unfolding settle_generic
  generic_present wanted s g h =
      let rs = laws.view domain wanted.typ s in
      let (t, n, c, q) = with_ttl_parts wanted in
      rw (generic_reads wanted s g)
        (elim (settled (same_record (find_record rs wanted.name) wanted)
          (find_record rs wanted.name) (with_ttl wanted) _ _ s
          (rw (generic_reads wanted s g) at h)) [
            | inl (e, same_state) ↦ rw same_state e
            | inr (done, state) ↦ rw state (
                stored_record _ wanted (
                  let (r', found, c', q') = laws.stored domain (with_ttl wanted) s done in
                  (r', rw (t, n) at found, c' ∙ c, q' ∙ q)))
          ])

  -- With a provider that reads back, as the first of its name, what it stored: after a push of an A,
  -- AAAA, MX, NS or SRV record that reports no error, the same push again reports the record as there
  -- already, with no error, and leaves the provider's state as it is.
  pub push_generic_twice :
      (wanted : Record) (s : S)
      → is_generic wanted.typ ≡ true
      → (push_generic_record p verify domain wanted s).1 ≡ none
      → push_generic_record p verify domain wanted (push_generic_record p verify domain wanted s).2
        ≡ in_place
            (fresh_result wanted.name wanted.content)
            (push_generic_record p verify domain wanted s).2
  unfolding settle_generic
  push_generic_twice wanted s g h =
      generic_reads wanted _ g ∙ settle_same _ _ _ _ _ _ (generic_present wanted s g h)

  abbrev pub push_single : Single → S → Outcome S
  push_single (txt_push name value) = push_txt_record p verify domain name value
  push_single (cname_push name value) = push_cname_record p verify domain name value
  push_single (generic_push wanted g) = push_generic_record p verify domain wanted

  -- With a provider that reads back, as the first of its type and name, what it stored: after a push of
  -- a TXT, CNAME, A, AAAA, MX, NS or SRV record that reports no error, the same push again reports the
  -- record as there already, with no error, and leaves the provider's state as it is.
  pub push_single_twice :
      (x : Single) (s : S)
      → (push_single x s).1 ≡ none
      → push_single x (push_single x s).2 ≡ in_place (result_of_single x) (push_single x s).2
  push_single_twice (txt_push name value) s h = push_txt_twice name value s h
  push_single_twice (cname_push name value) s h = push_cname_twice name value s h
  push_single_twice (generic_push wanted g) s h = push_generic_twice wanted s g h
