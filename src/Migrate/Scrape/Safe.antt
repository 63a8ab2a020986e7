-- ===== src/Migrate/Scrape/Safe.antt =====
-- The zone of `ScrapeZone`, by a transfer or by the walk.
use dns_entree.Base.{
  ℕ, suc, ◌≡◌, refl, sym, ◌∙◌, subst, Bool, List, [], ◌∷◌, Option, none, some, ltb, ◌==◌, any,
  if_rule, Bool-cases, inl, inr, All,
}
use dns_entree.Text.{Bytes, str_eq, to_lower, trim_suffix}
use dns_entree.Record.Errors.{Error, Result, ok, err, IfOk, if-IfOk}
use dns_entree.Dns.{Rr, type_soa}
use dns_entree.Template.Names.{dot}
use dns_entree.Migrate.Convert.{in_zone, rr_to_record}
use dns_entree.Migrate.Scrape.{
  Zone, Envelope, all_rrs, axfr_records, complete, no_rrs, received, axfr_transfer,
}
use dns_entree.Migrate.Scrape.Labels.{labels}
use dns_entree.Migrate.Scrape.Walk.{
  Walk, Progress, stopped, going, enqueue, enqueue_labels, query_authoritative, start_walk, walked,
  zone_of, iterated_scrape, dedup_records,
}
use dns_entree.Migrate.Scrape.Source.{
  ScrapeOptions, Servers, Printer, servers_to_ask, first_zone, try_transfers, after_walk, walk_zone,
  after_transfers, scrape_from, scrape_zone,
}
use dns_entree.Migrate.Scrape.Within.{
  IsWithin, AllWithin, rr_to_record-name, add_converted-AllWithin, dedup_from-AllWithin, EndsWithin,
  walk_queue-AllWithin,
}

enqueue-zone : (name : Bytes) (depth : ℕ) (w : Walk) → (enqueue name depth w).zone ≡ w.zone
unfolding enqueue
enqueue-zone name depth w =
    if_rule (λ (u : Walk). u.zone ≡ w.zone) (any (str_eq (to_lower (trim_suffix name dot))) w.seen)
      _ _ refl refl

enqueue_labels-zone :
    (domain : Bytes) (ls : List Bytes) (w : Walk) → (enqueue_labels domain ls w).zone ≡ w.zone
unfolding enqueue_labels
enqueue_labels-zone domain [] w = refl
enqueue_labels-zone domain (l ∷ ls) w = enqueue_labels-zone domain ls _ ∙ enqueue-zone _ 0 w

module _ (domain : Bytes) where
  abbrev ZoneWithin : Zone → Type 0
  ZoneWithin z = AllWithin domain z.records

  abbrev OutWithin : Option (Result Zone) → Type 0
  OutWithin none = Unit
  OutWithin (some r) = IfOk ZoneWithin r

  module _ (quote : Bytes → Bytes) (type_name : ℕ → Bytes) where
    axfr_records-AllWithin :
        (rrs : List Rr) (n : ℕ) (z : Zone)
        → ZoneWithin z
        → ZoneWithin (axfr_records quote type_name domain rrs n z).1
    unfolding axfr_records
    axfr_records-AllWithin [] n z h = h
    axfr_records-AllWithin (rr ∷ rrs) n z h =
        if_rule (λ (o : ℕ × Zone). ZoneWithin o.1) (rr.rrtype == type_soa) _ _
          (axfr_records-AllWithin rrs (suc n) z h)
          (elim (Bool-cases (in_zone rr.name domain)) [
            | inl y ↦ rw y (
                axfr_records-AllWithin rrs n _ (
                  add_converted-AllWithin domain rr.name (rr_to_record quote type_name (some rr)) z
                    y (rr_to_record-name quote type_name rr) h))
            | inr m ↦ rw m (axfr_records-AllWithin rrs n _ h)
          ])

    complete-IfOk : (o : ℕ × Zone) → ZoneWithin o.1 → IfOk ZoneWithin (complete quote type_name o)
    unfolding complete
    complete-IfOk (n, z) h = if-IfOk ZoneWithin (ltb n 2) _ _ (λ y. tt) (λ m. h)

    axfr_transfer-IfOk :
        (envelopes : Result (List Envelope))
        → IfOk ZoneWithin (axfr_transfer quote type_name domain envelopes)
    unfolding axfr_transfer received
    axfr_transfer-IfOk (err e) = tt
    axfr_transfer-IfOk (ok es) =
        if-IfOk ZoneWithin (no_rrs (all_rrs es)) _ _ (λ y. tt)
          (λ m. complete-IfOk _ (axfr_records-AllWithin (all_rrs es) 0 _ tt))

    module _ (code_name : ℕ → Bytes) (text_of : Error → Bytes)
        (ask : Bytes → ℕ → Result (List Rr × ℕ)) (done : Bytes → ℕ → Bool) where
      zone_of-OutWithin :
          (p : Option Progress)
          → EndsWithin domain quote type_name code_name text_of p
          → OutWithin (zone_of quote type_name code_name text_of domain ask done p)
      unfolding zone_of walked dedup_records
      zone_of-OutWithin none h = tt
      zone_of-OutWithin (some (stopped w)) h = tt
      zone_of-OutWithin (some (going w)) h = dedup_from-AllWithin domain [] w.zone.records h

      iterated_scrape-OutWithin :
          (fuel : ℕ) (ls : List Bytes)
          → OutWithin (iterated_scrape quote type_name code_name text_of domain ask done fuel ls)
      unfolding iterated_scrape start_walk
      iterated_scrape-OutWithin fuel ls = zone_of-OutWithin _ (
          walk_queue-AllWithin domain quote type_name code_name text_of ask done fuel _
            (subst ZoneWithin (sym (enqueue_labels-zone domain ls _)) tt))

module _ (print : Printer) (servers : Servers) (domain : Bytes) where
  abbrev FoundWithin : Option Zone → Type 0
  FoundWithin none = Unit
  FoundWithin (some z) = AllWithin domain z.records

  first_zone-Within :
      (r : Result Zone) (o : Option Zone)
      → IfOk (ZoneWithin domain) r
      → FoundWithin o
      → FoundWithin (first_zone r o)
  first_zone-Within (err e) o h k = k
  first_zone-Within (ok z) o h k = h

  try_transfers-Within : (ns : List Bytes) → FoundWithin (try_transfers print servers domain ns)
  unfolding try_transfers
  try_transfers-Within [] = tt
  try_transfers-Within (n ∷ ns) =
      first_zone-Within _ _
        (axfr_transfer-IfOk domain print.quote print.type_name (servers.transfer domain n))
        (try_transfers-Within ns)

  after_walk-OutWithin :
      (ns : List Bytes) (o : Option (Result Zone))
      → OutWithin domain o
      → OutWithin domain (after_walk print servers domain ns o)
  unfolding after_walk
  after_walk-OutWithin ns none h = tt
  after_walk-OutWithin ns (some (err e)) h = tt
  after_walk-OutWithin ns (some (ok z)) h = h

  after_transfers-OutWithin :
      (fuel : ℕ) (opts : ScrapeOptions) (ns : List Bytes) (o : Option Zone)
      → FoundWithin o
      → OutWithin domain (after_transfers print servers domain fuel opts ns o)
  unfolding after_transfers walk_zone
  after_transfers-OutWithin fuel opts ns (some z) h = h
  after_transfers-OutWithin fuel opts ns none h = after_walk-OutWithin ns _ (
      iterated_scrape-OutWithin domain print.quote print.type_name print.code_name print.text_of
        (λ name qtype. query_authoritative (λ n. servers.exchange n name qtype) ns none)
        servers.done fuel (labels opts.only_labels opts.extra_labels))

  scrape_from-OutWithin :
      (fuel : ℕ) (opts : ScrapeOptions) (ns : Result (List Bytes))
      → OutWithin domain (scrape_from print servers domain fuel opts ns)
  unfolding scrape_from
  scrape_from-OutWithin fuel opts (err e) = tt
  scrape_from-OutWithin fuel opts (ok ns) =
      after_transfers-OutWithin fuel opts ns _
        (if_rule FoundWithin opts.skip_axfr _ _ tt (try_transfers-Within ns))

-- Every record of a scraped zone lies in the domain, in any case: its name is the domain's, or ends
-- in it behind a dot, whatever the name servers answer.
pub scrape_zone-IsWithin :
    (print : Printer) (servers : Servers) (fuel : ℕ) (domain : Bytes) (opts : ScrapeOptions)
    (z : Zone)
    → scrape_zone print servers fuel domain opts ≡ some (ok z)
    → All (IsWithin (trim_suffix domain dot)) z.records
unfolding scrape_zone
scrape_zone-IsWithin print servers fuel domain opts z h =
    subst (OutWithin (trim_suffix domain dot)) h (
      scrape_from-OutWithin print servers (trim_suffix domain dot) fuel opts
        (servers_to_ask servers (trim_suffix domain dot) opts.nameservers))
