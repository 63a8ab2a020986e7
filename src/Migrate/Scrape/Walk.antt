-- ===== src/Migrate/Scrape/Walk.antt =====
-- The walk over well-known names, with the targets of the aliases that it finds.
use dns_entree.Base.{
  ℕ, zero, suc, ◌+◌, Bool, ◌&&◌, ◌||◌, not, List, [], ◌∷◌, ◌++◌, Option, none, some, if◌then◌else◌,
  ltb, ◌==◌, any,
}
use dns_entree.Text.{Bytes, codes, str_eq, to_lower, trim_suffix}
use dns_entree.Record.{Record}
use dns_entree.Record.Errors.{Error, other, Result, ok, err}
use dns_entree.Dns.{
  Rdata, cname, ns, Rr, type_a, type_aaaa, type_cname, type_txt, type_mx, type_ns, type_srv,
  type_caa, type_tlsa, type_sshfp,
}
use dns_entree.Template.Names.{dot, at}
use dns_entree.Template.Keys.Decimal.{decimal}
use dns_entree.Migrate.Convert.{Converted, kept, skipped, in_zone, rr_to_record, words}
use dns_entree.Migrate.Scrape.{Zone, empty_zone, warn, add_converted}

pub record Item : Type 0 where
  pub name : Bytes
  pub depth : ℕ

-- `seen` holds the names that were queued, `added` the delegations that were warned of.
pub record Walk : Type 0 where
  pub zone : Zone
  pub queue : List Item
  pub seen : List Bytes
  pub added : List Bytes

unfoldable pub query_types : List ℕ
query_types =
    type_a ∷ type_aaaa ∷ type_cname ∷ type_txt ∷ type_mx ∷ type_ns ∷ type_srv ∷ type_caa ∷ type_tlsa
    ∷ type_sshfp ∷ []

-- A name is queued once.
unfoldable pub enqueue : Bytes → ℕ → Walk → Walk
enqueue name depth w =
    let key = to_lower (trim_suffix name dot) in
    if any (str_eq key) w.seen then w else record w {
      queue = w.queue ++ record { name = key; depth = depth } ∷ [];
      seen = key ∷ w.seen;
    }

unfoldable pub enqueue_labels : Bytes → List Bytes → Walk → Walk
unfolding enqueue
enqueue_labels domain [] w = w
enqueue_labels domain (l ∷ ls) w =
    enqueue_labels domain ls (enqueue (if str_eq l at then domain else l ++ (dot ++ domain)) 0 w)

-- `rr.(*dns.CNAME)` and `rr.(*dns.NS)`.
unfoldable pub as_cname : Rdata → Option Bytes
as_cname (cname host) = some host
as_cname _ = none

unfoldable pub as_ns : Rdata → Option Bytes
as_ns (ns host) = some host
as_ns _ = none

-- The target of an alias in the zone is queued, up to the depth of four.
unfoldable pub follow : Bytes → Item → Option Bytes → Walk → Walk
unfolding in_zone enqueue
follow domain item (some host) w =
    if ltb item.depth 4 && in_zone (trim_suffix host dot) domain
    then enqueue (trim_suffix host dot) (item.depth + 1) w
    else w
follow domain item none w = w

-- A delegation of a child zone is warned of, once a name.
unfoldable pub note_delegation : Bytes → Bytes → Option Bytes → Walk → Walk
note_delegation domain name (some host) w =
    if not (str_eq (to_lower name) (to_lower domain)) && not (any (str_eq name) w.added)
    then record w {
      added = name ∷ w.added;
      zone = record w.zone {
        warnings =
            w.zone.warnings
            ++ (codes "child zone delegation at "
                ++ (name ++ (codes " -> " ++ (trim_suffix host dot ++ codes " (not followed)"))))
              ∷ [];
      };
    }
    else w
note_delegation domain name none w = w

-- The first name server that replies: its records and its code, or the last error.
unfoldable pub query_authoritative :
    (Bytes → Result (Option (List Rr × ℕ))) → List Bytes → Option Error → Result (List Rr × ℕ)
query_authoritative exchange [] none = err (other (codes "no nameservers available"))
query_authoritative exchange [] (some e) = err e
query_authoritative exchange (n ∷ rest) last = elim (exchange n) [
  | err e ↦ query_authoritative exchange rest (some e)
  | ok none ↦ query_authoritative exchange rest (some (other (codes "nil response")))
  | ok (some reply) ↦ ok reply
]

-- The context was done, or the walk goes on.
pub data Progress : Type 0 where
  stopped going : Walk → Progress

-- `RcodeSuccess` and `RcodeNameError`.
abbrev pub is_answer : ℕ → Bool
is_answer rcode = rcode == 0 || rcode == 3

unfoldable pub dedup_key : Record → Bytes
unfolding decimal
dedup_key r =
    r.typ
    ++ (codes "|"
        ++ (to_lower r.name ++ (codes "|" ++ (r.content ++ (codes "|" ++ decimal r.priority)))))

unfoldable pub dedup_from : List Bytes → List Record → List Record
unfolding dedup_key
dedup_from seen [] = []
dedup_from seen (r ∷ rs) =
    let rest = dedup_from seen rs in
    let more = dedup_from (dedup_key r ∷ seen) rs in
    if any (str_eq (dedup_key r)) seen then rest else r ∷ more

unfoldable pub dedup_records : List Record → List Record
unfolding dedup_from
dedup_records rs = dedup_from [] rs

-- `code_name` names a reply code, and `text_of` is the text of an error.
module _ (quote : Bytes → Bytes) (type_name code_name : ℕ → Bytes) (text_of : Error → Bytes)
    (domain : Bytes) where
  unfoldable pub scan_record : Item → Rr → Converted → Walk → Walk
  unfolding warn add_converted as_cname as_ns follow note_delegation
  scan_record item rr (skipped text) w = record w { zone = warn text w.zone }
  scan_record item rr (kept rec) w =
      note_delegation domain (trim_suffix rr.name dot) (as_ns rr.body) (
        follow domain item (as_cname rr.body) (record w { zone = add_converted (kept rec) w.zone }))

  -- A record outside the zone is passed over.
  unfoldable pub scan_records : Item → List Rr → Walk → Walk
  unfolding in_zone scan_record rr_to_record
  scan_records item [] w = w
  scan_records item (rr ∷ rrs) w = scan_records item rrs (
      if in_zone rr.name domain
      then scan_record item rr (rr_to_record quote type_name (some rr)) w
      else w)

  unfoldable pub scan_reply : Item → ℕ → Result (List Rr × ℕ) → Walk → Walk
  unfolding scan_records
  scan_reply item qtype (err e) w = record w {
    zone = record w.zone {
      warnings =
          w.zone.warnings
          ++ words
              (codes "query" ∷ type_name qtype ∷ item.name ∷ (codes "failed: " ++ text_of e) ∷ [])
            ∷ [];
    };
  }
  scan_reply item qtype (ok (rrs, rcode)) w =
      if is_answer rcode then scan_records item rrs w else record w {
        zone = record w.zone {
          warnings =
              w.zone.warnings
              ++ words (
                  codes "query"
                  ∷ type_name qtype
                  ∷ item.name
                  ∷ (codes "rcode=" ++ code_name rcode)
                  ∷ [])
                ∷ [];
        };
      }

  -- `ask` is a query of the name servers, and `done` says whether the context is done before it.
  module _ (ask : Bytes → ℕ → Result (List Rr × ℕ)) (done : Bytes → ℕ → Bool) where
    unfoldable pub scan_types : Item → List ℕ → Walk → Progress
    unfolding scan_reply
    scan_types item [] w = going w
    scan_types item (t ∷ ts) w =
        let rest = scan_types item ts (scan_reply item t (ask item.name t) w) in
        if done item.name t then stopped w else rest

    abbrev pub after_scan : Progress → (Walk → Option Progress) → Option Progress
    after_scan (stopped w) next = some (stopped w)
    after_scan (going w) next = next w

    unfoldable pub after_pop : List Item → Walk → (Walk → Option Progress) → Option Progress
    unfolding scan_types query_types
    after_pop [] w next = some (going w)
    after_pop (item ∷ items) w next =
        after_scan (scan_types item query_types (record w { queue = items })) next

    -- The loop over the queue, which can grow; `none` where the fuel is used up.
    unfoldable pub walk_queue : ℕ → Walk → Option Progress
    unfolding after_pop
    walk_queue zero w = none
    walk_queue (suc fuel) w = after_pop w.queue w (walk_queue fuel)

    unfoldable pub start_walk : List Bytes → Walk
    unfolding enqueue_labels
    start_walk ls =
        enqueue_labels domain ls (record {
          zone = empty_zone domain (codes "iterated");
          queue = [];
          seen = [];
          added = [];
        })

    unfoldable pub walked : Progress → Result Zone
    unfolding dedup_records
    walked (stopped w) = err (other (codes "context done"))
    walked (going w) = ok (record w.zone { records = dedup_records w.zone.records })

    unfoldable pub zone_of : Option Progress → Option (Result Zone)
    unfolding walked
    zone_of none = none
    zone_of (some p) = some (walked p)

    unfoldable pub iterated_scrape : ℕ → List Bytes → Option (Result Zone)
    unfolding walk_queue start_walk zone_of
    iterated_scrape fuel ls = zone_of (walk_queue fuel (start_walk ls))
