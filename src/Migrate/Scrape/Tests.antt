-- ===== src/Migrate/Scrape/Tests.antt =====
-- A transfer with a record of another zone in it, and a walk along an alias.
use dns_entree.Base.{
  ℕ, ℤ, ◌≡◌, refl, true, false, List, [], ◌∷◌, none, some, if◌then◌else◌, ◌==◌, ◌&&◌, All,
}
use dns_entree.Text.{Bytes, codes, str_eq, trim_suffix}
use dns_entree.Record.{plain}
use dns_entree.Record.Errors.{Result, ok}
use dns_entree.Dns.{soa, a, cname, Rr, type_a, type_cname, type_soa}
use dns_entree.Template.Names.{dot}
use dns_entree.Migrate.Scrape.{Zone, empty_zone, import_bind}
use dns_entree.Migrate.Scrape.Walk.{iterated_scrape}
use dns_entree.Migrate.Scrape.Ends.{iterated_scrape-Ends}
use dns_entree.Migrate.Scrape.Source.{ScrapeOptions, Servers, Printer, scrape_zone}
use dns_entree.Migrate.Scrape.Within.{IsWithin}
use dns_entree.Migrate.Scrape.Total.{scrape_zone-Ends}
use dns_entree.Migrate.Scrape.Safe.{scrape_zone-IsWithin}

abbrev print : Printer
print = record {
  quote = λ s. s;
  type_name = λ t. codes "TYPE";
  code_name = λ c. codes "CODE";
  text_of = λ e. codes "error";
}

abbrev rr_soa : Rr
rr_soa = record { name = codes "a.example."; rrtype = type_soa; ttl = 60; body = soa }

abbrev rr_www : Rr
rr_www = record {
  name = codes "www.A.example.";
  rrtype = type_a;
  ttl = 60;
  body = a (codes "10.0.0.1");
}

abbrev rr_foreign : Rr
rr_foreign = record {
  name = codes "www.b.example.";
  rrtype = type_a;
  ttl = 60;
  body = a (codes "10.0.0.6");
}

abbrev rr_alias : Rr
rr_alias = record {
  name = codes "www.a.example.";
  rrtype = type_cname;
  ttl = 60;
  body = cname (codes "web.a.example.");
}

abbrev rr_web : Rr
rr_web = record {
  name = codes "web.a.example.";
  rrtype = type_a;
  ttl = 60;
  body = a (codes "10.0.0.7");
}

abbrev reply : Bytes → ℕ → List Rr
reply name qtype =
    if str_eq name (codes "www.a.example") && (qtype == type_cname)
    then rr_alias ∷ []
    else if str_eq name (codes "web.a.example") && (qtype == type_a)
    then rr_web ∷ []
    else []

abbrev servers : Servers
servers = record {
  lookup_ns = λ domain. ok (codes "ns1.a.example." ∷ []);
  address_of = λ host. ok (codes "10.0.0.2:53");
  transfer = λ domain addr. ok (
      record { rrs = rr_soa ∷ rr_www ∷ []; failure = none }
      ∷ record { rrs = rr_foreign ∷ rr_soa ∷ []; failure = none }
      ∷ []);
  exchange = λ addr name qtype. ok (some (reply name qtype, 0));
  done = λ name qtype. false;
}

abbrev opts : ScrapeOptions
opts = record {
  nameservers = [];
  extra_labels = [];
  only_labels = codes "www" ∷ [];
  skip_axfr = false;
}

abbrev transferred : Zone
transferred = record {
  domain = codes "a.example";
  records = plain (codes "A") (codes "www.A.example") (codes "10.0.0.1") (ℤ.pos 60) ∷ [];
  source = codes "axfr";
  nameservers = codes "10.0.0.2:53" ∷ [];
  warnings = codes "dropped out-of-zone AXFR record TYPE www.b.example" ∷ [];
}

transfer_run : scrape_zone print servers 0 (codes "a.example.") opts ≡ some (ok transferred)
unfolding scrape_zone str_eq dns_entree.Text.to_lower trim_suffix
transfer_run = refl

scrape_zone-IsWithin_example :
    All (IsWithin (trim_suffix (codes "a.example.") dot)) transferred.records
scrape_zone-IsWithin_example =
    scrape_zone-IsWithin print servers 0 (codes "a.example.") opts transferred transfer_run

abbrev walked_zone : Zone
walked_zone = record (empty_zone (codes "a.example") (codes "iterated")) {
  records =
      plain (codes "CNAME") (codes "www.a.example") (codes "web.a.example") (ℤ.pos 60)
      ∷ plain (codes "A") (codes "web.a.example") (codes "10.0.0.7") (ℤ.pos 60)
      ∷ [];
  nameservers = codes "10.0.0.2:53" ∷ [];
}

walk_run :
    scrape_zone print servers 3 (codes "a.example.") (record opts { skip_axfr = true })
    ≡ some (ok walked_zone)
unfolding scrape_zone str_eq dns_entree.Text.to_lower trim_suffix
walk_run = refl

iterated_scrape_case :
    (fuel : ℕ) × (r : Result Zone) × (iterated_scrape print.quote print.type_name print.code_name
        print.text_of
        (codes "a.example")
        (λ name qtype. ok (reply name qtype, 0))
        (λ name qtype. false)
        fuel
        (codes "www" ∷ [])
      ≡ some r)
iterated_scrape_case =
    iterated_scrape-Ends print.quote print.type_name print.code_name print.text_of
      (codes "a.example") (λ name qtype. ok (reply name qtype, 0)) (λ name qtype. false)
      (codes "www" ∷ [])

scrape_zone-Ends_example :
    (fuel : ℕ) × (r : Result Zone) × (scrape_zone print servers fuel (codes "a.example") opts
      ≡ some r)
scrape_zone-Ends_example = scrape_zone-Ends print servers (codes "a.example") opts

bind_run :
    import_bind print.quote print.type_name
      (codes "a.example.")
      (rr_soa ∷ rr_foreign ∷ rr_web ∷ [], none)
    ≡ ok (record (empty_zone (codes "a.example") (codes "bind")) {
      records = plain (codes "A") (codes "web.a.example") (codes "10.0.0.7") (ℤ.pos 60) ∷ [];
      warnings = codes "dropped out-of-zone record A www.b.example" ∷ [];
    })
unfolding import_bind str_eq dns_entree.Text.to_lower trim_suffix
bind_run = refl
