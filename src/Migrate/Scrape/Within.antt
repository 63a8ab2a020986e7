-- ===== src/Migrate/Scrape/Within.antt =====
-- Every record of a scraped zone lies in it, whatever the servers answer.
use dns_entree.Base.{
  ℕ, zero, suc, ◌≡◌, refl, sym, ap, ◌∙◌, subst, Bool, true, ◌&&◌, not, List, [], ◌∷◌, ◌++◌, Option,
  none, some, ltb, arith, any, if_rule, Bool-cases, inl, inr, ◌⊎◌, All, All-append,
}
use dns_entree.Text.{Bytes, str_eq, str_eq_iff, to_lower, trim_suffix, has_suffix_rest}
use dns_entree.Record.{Record}
use dns_entree.Record.Errors.{Error, Result, ok, err}
use dns_entree.Dns.{
  Rdata, soa, dnskey, ds, other, a, aaaa, cname, ns, txt, mx, srv, caa, tlsa, sshfp, Rr,
}
use dns_entree.Template.Names.{dot, is_empty}
use dns_entree.Migrate.Convert.{Converted, kept, skipped, in_zone, convert_body, rr_to_record}
use dns_entree.Migrate.Scrape.{Zone, warn, add_converted}
use dns_entree.Migrate.Scrape.Walk.{
  Item, Walk, enqueue, as_cname, as_ns, follow, note_delegation, Progress, stopped, going,
  is_answer, dedup_key, dedup_from, scan_record, scan_records, scan_reply, scan_types, query_types,
  after_scan, after_pop, walk_queue,
}

-- The name is the zone's, or ends in it behind a dot, in any case.
abbrev pub IsWithin : Bytes → Record → Type 0
IsWithin domain r =
    let z = to_lower (trim_suffix domain dot) in
    (to_lower r.name ≡ z) ⊎ ((s : Bytes) × (to_lower r.name ≡ s ++ (dot ++ z)))

abbrev pub KeepsName : Bytes → Converted → Type 0
KeepsName name (kept r) = r.name ≡ name
KeepsName name (skipped t) = Unit

in_zone-IsWithin :
    (domain name : Bytes) (r : Record)
    → in_zone name domain ≡ true
    → r.name ≡ trim_suffix name dot
    → IsWithin domain r
unfolding in_zone
in_zone-IsWithin domain name r h e =
    let n = to_lower (trim_suffix name dot) in
    let z = to_lower (trim_suffix domain dot) in
    elim (Bool-cases (str_eq n z)) [
      | inl y ↦ inl (ap to_lower e ∙ (str_eq_iff n z).0 y)
      | inr m ↦
          let (s, q) = has_suffix_rest n (dot ++ z) (ground arith) in inr (s, ap to_lower e ∙ q)
    ]

module _ (quote : Bytes → Bytes) (type_name : ℕ → Bytes) where
  convert_body-name :
      (rr : Rr) (name : Bytes) (d : Rdata) → KeepsName name (convert_body quote type_name rr name d)
  unfolding convert_body
  convert_body-name rr name soa = tt
  convert_body-name rr name dnskey = tt
  convert_body-name rr name ds = tt
  convert_body-name rr name (a ip) = refl
  convert_body-name rr name (aaaa ip) = refl
  convert_body-name rr name (cname host) = refl
  convert_body-name rr name (txt parts) = refl
  convert_body-name rr name (mx preference host) = refl
  convert_body-name rr name (ns host) = refl
  convert_body-name rr name (srv prio w p host) = refl
  convert_body-name rr name (caa flag tag value) = refl
  convert_body-name rr name (tlsa u s m c) = refl
  convert_body-name rr name (sshfp g k f) = refl
  convert_body-name rr name other = tt

  pub rr_to_record-name :
      (rr : Rr) → KeepsName (trim_suffix rr.name dot) (rr_to_record quote type_name (some rr))
  unfolding rr_to_record
  rr_to_record-name rr = convert_body-name rr (trim_suffix rr.name dot) rr.body

warn-records : (text : Bytes) (z : Zone) → (warn text z).records ≡ z.records
unfolding warn
warn-records text z = if_rule (λ (y : Zone). y.records ≡ z.records) (is_empty text) _ _ refl refl

module _ (domain : Bytes) where
  abbrev pub AllWithin : List Record → Type 0
  AllWithin rs = All (IsWithin domain) rs

  pub add_converted-AllWithin :
      (name : Bytes) (c : Converted) (z : Zone)
      → in_zone name domain ≡ true
      → KeepsName (trim_suffix name dot) c
      → AllWithin z.records
      → AllWithin (add_converted c z).records
  unfolding add_converted
  add_converted-AllWithin name (kept r) z i k h =
      All-append (IsWithin domain) z.records (r ∷ []) h (in_zone-IsWithin domain name r i k, tt)
  add_converted-AllWithin name (skipped t) z i k h = rw (warn-records t z) h

  follow-zone :
      (item : Item) (target : Option Bytes) (w : Walk) → (follow domain item target w).zone ≡ w.zone
  unfolding follow enqueue
  follow-zone item none w = refl
  follow-zone item (some host) w =
      if_rule (λ (u : Walk). u.zone ≡ w.zone)
        (ltb item.depth 4 && in_zone (trim_suffix host dot) domain) _ _
        (if_rule (λ (u : Walk). u.zone ≡ w.zone) (any (str_eq _) w.seen) _ _ refl refl) refl

  note_delegation-records :
      (name : Bytes) (target : Option Bytes) (w : Walk)
      → (note_delegation domain name target w).zone.records ≡ w.zone.records
  unfolding note_delegation
  note_delegation-records name none w = refl
  note_delegation-records name (some host) w =
      if_rule (λ (u : Walk). u.zone.records ≡ w.zone.records)
        (not (str_eq (to_lower name) (to_lower domain)) && not (any (str_eq name) w.added)) _ _ refl
        refl

  pub dedup_from-AllWithin :
      (seen : List Bytes) (rs : List Record) → AllWithin rs → AllWithin (dedup_from seen rs)
  unfolding dedup_from
  dedup_from-AllWithin seen [] h = tt
  dedup_from-AllWithin seen (r ∷ rs) (hr, h) =
      if_rule AllWithin (any (str_eq (dedup_key r)) seen) _ _ (dedup_from-AllWithin seen rs h)
        (hr, dedup_from-AllWithin (dedup_key r ∷ seen) rs h)

  module _ (quote : Bytes → Bytes) (type_name code_name : ℕ → Bytes) (text_of : Error → Bytes) where
    scan_record-AllWithin :
        (item : Item) (rr : Rr) (c : Converted) (w : Walk)
        → in_zone rr.name domain ≡ true
        → KeepsName (trim_suffix rr.name dot) c
        → AllWithin w.zone.records
        → AllWithin (scan_record quote type_name code_name text_of domain item rr c w).zone.records
    unfolding scan_record
    scan_record-AllWithin item rr (skipped t) w i k h = rw (warn-records t w.zone) h
    scan_record-AllWithin item rr (kept r) w i k h =
        let u : Walk = record w { zone = add_converted (kept r) w.zone } in
        let v = follow domain item (as_cname rr.body) u in
        subst AllWithin
          (sym (
            note_delegation-records (trim_suffix rr.name dot) (as_ns rr.body) v
            ∙ ap (λ (z : Zone). z.records) (follow-zone item (as_cname rr.body) u)))
          (add_converted-AllWithin rr.name (kept r) w.zone i k h)

    scan_records-AllWithin :
        (item : Item) (rrs : List Rr) (w : Walk)
        → AllWithin w.zone.records
        → AllWithin (scan_records quote type_name code_name text_of domain item rrs w).zone.records
    unfolding scan_records
    scan_records-AllWithin item [] w h = h
    scan_records-AllWithin item (rr ∷ rrs) w h =
        scan_records-AllWithin item rrs _ (elim (Bool-cases (in_zone rr.name domain)) [
          | inl y ↦ rw y (
              scan_record-AllWithin item rr (rr_to_record quote type_name (some rr)) w y
                (rr_to_record-name quote type_name rr) h)
          | inr n ↦ rw n h
        ])

    scan_reply-AllWithin :
        (item : Item) (t : ℕ) (q : Result (List Rr × ℕ)) (w : Walk)
        → AllWithin w.zone.records
        → AllWithin (scan_reply quote type_name code_name text_of domain item t q w).zone.records
    unfolding scan_reply
    scan_reply-AllWithin item t (err e) w h = h
    scan_reply-AllWithin item t (ok (rrs, rcode)) w h =
        if_rule (λ (u : Walk). AllWithin u.zone.records) (is_answer rcode) _ _
          (scan_records-AllWithin item rrs w h) h

    abbrev pub ProgressWithin : Progress → Type 0
    ProgressWithin (stopped w) = Unit
    ProgressWithin (going w) = AllWithin w.zone.records

    abbrev pub EndsWithin : Option Progress → Type 0
    EndsWithin none = Unit
    EndsWithin (some p) = ProgressWithin p

    module _ (ask : Bytes → ℕ → Result (List Rr × ℕ)) (done : Bytes → ℕ → Bool) where
      scan_types-AllWithin :
          (item : Item) (ts : List ℕ) (w : Walk)
          → AllWithin w.zone.records
          → ProgressWithin (scan_types quote type_name code_name text_of domain ask done item ts w)
      unfolding scan_types
      scan_types-AllWithin item [] w h = h
      scan_types-AllWithin item (t ∷ ts) w h =
          if_rule ProgressWithin (done item.name t) _ _ tt
            (scan_types-AllWithin item ts _ (scan_reply-AllWithin item t (ask item.name t) w h))

      after_scan-AllWithin :
          (p : Progress) (next : Walk → Option Progress)
          → ProgressWithin p
          → ((w : Walk) → AllWithin w.zone.records → EndsWithin (next w))
          → EndsWithin (after_scan quote type_name code_name text_of domain ask done p next)
      after_scan-AllWithin (stopped w) next h g = tt
      after_scan-AllWithin (going w) next h g = g w h

      after_pop-AllWithin :
          (q : List Item) (w : Walk) (next : Walk → Option Progress)
          → AllWithin w.zone.records
          → ((v : Walk) → AllWithin v.zone.records → EndsWithin (next v))
          → EndsWithin (after_pop quote type_name code_name text_of domain ask done q w next)
      unfolding after_pop
      after_pop-AllWithin [] w next h g = h
      after_pop-AllWithin (item ∷ items) w next h g =
          after_scan-AllWithin _ next
            (scan_types-AllWithin item query_types (record w { queue = items }) h) g

      pub walk_queue-AllWithin :
          (fuel : ℕ) (w : Walk)
          → AllWithin w.zone.records
          → EndsWithin (walk_queue quote type_name code_name text_of domain ask done fuel w)
      unfolding walk_queue
      walk_queue-AllWithin zero w h = tt
      walk_queue-AllWithin (suc fuel) w h =
          after_pop-AllWithin w.queue w _ h (walk_queue-AllWithin fuel)
