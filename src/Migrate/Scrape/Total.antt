-- ===== src/Migrate/Scrape/Total.antt =====
-- migrate/scrape.go, `ScrapeZone`: some fuel is enough.
use dns_entree.Base.{ℕ, ◌≡◌, refl, ap, ◌∙◌, List, Option, none, some}
use dns_entree.Text.{Bytes, trim_suffix}
use dns_entree.Template.Names.{dot}
use dns_entree.Record.Errors.{Result, ok, err}
use dns_entree.Migrate.Scrape.{Zone}
use dns_entree.Migrate.Scrape.Labels.{labels}
use dns_entree.Migrate.Scrape.Walk.{query_authoritative}
use dns_entree.Migrate.Scrape.Ends.{iterated_scrape-Ends}
use dns_entree.Migrate.Scrape.Source.{
  ScrapeOptions, Servers, Printer, with_servers, after_walk, walk_zone, after_transfers,
  scrape_from, scrape_zone,
}

-- There is a fuel with which it gives a result.
abbrev Ends : (ℕ → Option (Result Zone)) → Type 0
Ends run = (fuel : ℕ) × (r : Result Zone) × (run fuel ≡ some r)

module _ (print : Printer) (servers : Servers) (domain : Bytes) where
  after_walk-some :
      (ns : List Bytes) (r : Result Zone)
      → (q : Result Zone) × (after_walk print servers domain ns (some r) ≡ some q)
  unfolding after_walk
  after_walk-some ns (err e) = (err e, refl)
  after_walk-some ns (ok z) = (ok (with_servers print servers domain ns z), refl)

  walk_zone-Ends :
      (opts : ScrapeOptions) (ns : List Bytes)
      → Ends (λ fuel. walk_zone print servers domain fuel opts ns)
  unfolding walk_zone
  walk_zone-Ends opts ns =
      let (fuel, r, e) =
        iterated_scrape-Ends print.quote print.type_name print.code_name print.text_of domain
          (λ name qtype. query_authoritative (λ n. servers.exchange n name qtype) ns none)
          servers.done (labels opts.only_labels opts.extra_labels) in
      let (q, f) = after_walk-some ns r in (fuel, q, ap (after_walk print servers domain ns) e ∙ f)

  after_transfers-Ends :
      (opts : ScrapeOptions) (ns : List Bytes) (o : Option Zone)
      → Ends (λ fuel. after_transfers print servers domain fuel opts ns o)
  unfolding after_transfers
  after_transfers-Ends opts ns (some z) = (0, ok (with_servers print servers domain ns z), refl)
  after_transfers-Ends opts ns none = walk_zone-Ends opts ns

  scrape_from-Ends :
      (opts : ScrapeOptions) (ns : Result (List Bytes))
      → Ends (λ fuel. scrape_from print servers domain fuel opts ns)
  unfolding scrape_from
  scrape_from-Ends opts (err e) = (0, err e, refl)
  scrape_from-Ends opts (ok ns) = after_transfers-Ends opts ns _

-- The scrape of a zone ends, whatever the name servers answer: there is a fuel with which it gives a
-- zone or an error.
pub scrape_zone-Ends :
    (print : Printer) (servers : Servers) (domain : Bytes) (opts : ScrapeOptions)
    → (fuel : ℕ) × (r : Result Zone) × (scrape_zone print servers fuel domain opts ≡ some r)
unfolding scrape_zone
scrape_zone-Ends print servers domain opts =
    scrape_from-Ends print servers (trim_suffix domain dot) opts _
