-- ===== src/Template/Apply/Fates.antt =====
-- What becomes of one resolved record: the calls of the provider that its push makes, in order, and
-- what is reported of them.
use dns_entree.Base.{
  ◌≡◌, refl, ◌⊎◌, inl, inr, Bool, true, false, List, Option, none, some, if◌then◌else◌, arith,
}
use dns_entree.Text.{Bytes, codes, str_eq_iff, is_some}
use dns_entree.Record.{Record, Provider}
use dns_entree.Record.Errors.{Error, get_failed, set_failed, Result, ok, err}
use dns_entree.Push.Steps.{
  created, updated, already_configured, failed, PushResult, VerifyOpts, Verifier, Outcome,
  find_record, after_read, after_write, verified_result, normalize_host,
}
use dns_entree.Push.{
  is_generic, current_spf, same_content, same_record, same_host, with_ttl, settle, settle_generic,
  push_generic_record, settle_txt, push_txt_record, settle_spf, merge_spf_records, push_spf_record,
  settle_cname, push_cname_record,
}
use dns_entree.Push.Outcomes.{verified_result-status}

abbrev pub IsNamed : Bytes → Bytes → PushResult → Type 0
IsNamed name content r = (r.record_name ≡ name) × (r.record_value ≡ content)

-- A value that counts as the wanted one: for an alias, the same host.
abbrev pub IsSameValue : Bytes → Bytes → Bytes → Type 0
IsSameValue typ x content =
    (x ≡ content) ⊎ ((typ ≡ codes "CNAME") × (normalize_host x ≡ normalize_host content))

-- The records of the type are read; the wanted one is there, or it is written, of that type, name
-- and content; or the call that failed is named.
pub data Fate {S : Type 0} (p : Provider S) (domain typ name content : Bytes) (v : S)
    (o : Outcome S) : Type 0 where
  there :
      (rs : List Record) (e : Record)
      → p.get_records domain typ v ≡ (ok rs, o.2)
      → find_record rs name ≡ some e
      → IsSameValue typ e.content content
      → o.0.status ≡ already_configured
      → o.1 ≡ none
      → Fate p domain typ name content v o
  written :
      (rs : List Record) (m : S) (w : Record)
      → p.get_records domain typ v ≡ (ok rs, m)
      → p.set_record domain w m ≡ (ok tt, o.2)
      → (w.typ ≡ typ) × (w.name ≡ name) × (w.content ≡ content)
      → o.0.status ≡ (if is_some (find_record rs name) then updated else created)
      → o.1 ≡ none
      → Fate p domain typ name content v o
  unread :
      (x : Error)
      → p.get_records domain typ v ≡ (err x, o.2)
      → o.0.status ≡ failed
      → o.1 ≡ some (get_failed x)
      → Fate p domain typ name content v o
  unwritten :
      (rs : List Record) (m : S) (w : Record) (x : Error)
      → p.get_records domain typ v ≡ (ok rs, m)
      → p.set_record domain w m ≡ (err x, o.2)
      → (w.typ ≡ typ) × (w.name ≡ name) × (w.content ≡ content)
      → o.0.status ≡ failed
      → o.1 ≡ some (set_failed x)
      → Fate p domain typ name content v o

abbrev pub IsPushed :
    {S : Type 0} → Provider S → Bytes → Bytes → Bytes → Bytes → S → Outcome S → Type 0
IsPushed p domain typ name content v o =
    IsNamed name content o.0 × Fate p domain typ name content v o

pub verified_result-IsNamed :
    (name content : Bytes) (r : PushResult) (seen : Result Bool)
    → IsNamed name content r
    → IsNamed name content (verified_result r seen)
unfolding verified_result
verified_result-IsNamed name content r (err e) h = h
verified_result-IsNamed name content r (ok true) h = h
verified_result-IsNamed name content r (ok false) h = h

-- What stands there has the wanted value.
abbrev Stands : Bytes → Bytes → Option Record → Type 0
Stands typ content found = (e : Record) × (found ≡ some e) × IsSameValue typ e.content content

module _ {S : Type 0} (p : Provider S) (verify : Verifier S) (domain : Bytes) where
  settle-IsPushed :
      (typ name content : Bytes) (rs : List Record) (v m : S)
      → p.get_records domain typ v ≡ (ok rs, m)
      → (same : Bool) → (same ≡ true → Stands typ content (find_record rs name))
      → (w : Record) → (w.typ ≡ typ) × (w.name ≡ name) × (w.content ≡ content)
      → (opts : VerifyOpts) (r : PushResult) → IsNamed name content r
      → IsPushed p domain typ name content v
          (settle p verify domain same (find_record rs name) w opts r m)
  unfolding settle after_write
  settle-IsPushed typ name content rs v m g true k w wf opts r h =
      let (e, f, c) = k refl in (h, there rs e g f c refl refl)
  settle-IsPushed typ name content rs v m g false k w wf opts r h =
      write (p.set_record domain w m) refl
    where
      found : Option Record
      found = find_record rs name

      result : PushResult
      result = record r { previous_value = dns_entree.Push.Steps.content_of found }

      write :
          (q : Result (Unit {0}) × S)
          → p.set_record domain w m ≡ q
          → IsPushed p domain typ name content v (
              after_write q
                (if is_some found then updated else created)
                result
                (verify domain opts))
      write (err x, z) e = (h, unwritten rs m w x g e wf refl refl)
      write (ok _, z) e =
          let status = if is_some found then updated else created in
          let marked : PushResult = record result { status = status } in
          (
            verified_result-IsNamed name content marked (verify domain opts z) h,
            written rs m w g e wf (verified_result-status marked (verify domain opts z)) refl,
          )

  read-IsPushed :
      (typ name content : Bytes) (v : S) (r : PushResult)
      → IsNamed name content r
      → (next : List Record → S → Outcome S)
      → ((rs : List Record) (m : S)
          → p.get_records domain typ v ≡ (ok rs, m)
          → IsPushed p domain typ name content v (next rs m))
      → (g : Result (List Record) × S) → p.get_records domain typ v ≡ g
      → IsPushed p domain typ name content v (after_read g r next)
  unfolding after_read
  read-IsPushed typ name content v r h next k (err x, z) g = (h, unread x g refl refl)
  read-IsPushed typ name content v r h next k (ok rs, m) g = k rs m g

  same_content-Stands :
      (typ content : Bytes) (found : Option Record)
      → same_content found content ≡ true
      → Stands typ content found
  unfolding same_content
  same_content-Stands typ content none h = cc
  same_content-Stands typ content (some e) h = (e, refl, inl ((str_eq_iff e.content content).0 h))

  same_record-Stands :
      (typ : Bytes) (w : Record) (found : Option Record)
      → same_record found w ≡ true
      → Stands typ w.content found
  unfolding same_record
  same_record-Stands typ w none h = cc
  same_record-Stands typ w (some e) h =
      (e, refl, inl ((str_eq_iff e.content w.content).0 (ground (arith, h))))

  same_host-Stands :
      (target : Bytes) (found : Option Record)
      → same_host found target ≡ true
      → Stands (codes "CNAME") target found
  unfolding same_host
  same_host-Stands target none h = cc
  same_host-Stands target (some e) h =
      (e, refl, inr (refl, (str_eq_iff (normalize_host e.content) (normalize_host target)).0 h))

  with_ttl-keeps :
      (w : Record)
      → ((with_ttl w).typ ≡ w.typ)
        × ((with_ttl w).name ≡ w.name)
        × ((with_ttl w).content ≡ w.content)
  unfolding with_ttl
  with_ttl-keeps w = ground arith

  pub push_txt-IsPushed :
      (name content : Bytes) (s : S)
      → IsPushed p domain
          (codes "TXT")
          name
          content
          s
          (push_txt_record p verify domain name content s)
  unfolding push_txt_record settle_txt
  push_txt-IsPushed name content s =
      read-IsPushed (codes "TXT") name content s _ (refl, refl) _
        (λ rs m g.
          settle-IsPushed (codes "TXT") name content rs s m g _
            (same_content-Stands (codes "TXT") content (find_record rs name)) _ (refl, refl, refl) _
            _ (refl, refl))
        _ refl

  pub push_cname-IsPushed :
      (name target : Bytes) (s : S)
      → IsPushed p domain
          (codes "CNAME")
          name
          target
          s
          (push_cname_record p verify domain name target s)
  unfolding push_cname_record settle_cname
  push_cname-IsPushed name target s =
      read-IsPushed (codes "CNAME") name target s _ (refl, refl) _
        (λ rs m g.
          settle-IsPushed (codes "CNAME") name target rs s m g _
            (same_host-Stands target (find_record rs name)) _ (refl, refl, refl) _ _ (refl, refl))
        _ refl

  pub push_generic-IsPushed :
      (w : Record) (s : S)
      → is_generic w.typ ≡ true
      → IsPushed p domain w.typ w.name w.content s (push_generic_record p verify domain w s)
  unfolding push_generic_record settle_generic
  push_generic-IsPushed w s t = rw t (
      read-IsPushed w.typ w.name w.content s _ (refl, refl) _
        (λ rs m g.
          settle-IsPushed w.typ w.name w.content rs s m g _
            (same_record-Stands w.typ w (find_record rs w.name)) (with_ttl w) (with_ttl-keeps w) _ _
            (refl, refl))
        _ refl)
