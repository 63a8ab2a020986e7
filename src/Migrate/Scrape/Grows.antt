-- ===== src/Migrate/Scrape/Grows.antt =====
-- The queue of the walk grows at its end, by names one level deeper.
use dns_entree.Base.{
  ℕ, suc, ◌+◌, ◌<◌, ◌≡◌, refl, sym, ap, ◌∙◌, Bool, ◌&&◌, not, List, [], ◌∷◌, ◌++◌, Option, none,
  some, if◌then◌else◌, ltb, arith, any, if_rule, Bool-cases, inl, inr, All, All-append,
  append_assoc, append-nil,
}
use dns_entree.Text.{Bytes, str_eq, to_lower, trim_suffix}
use dns_entree.Record.Errors.{Error, Result, ok, err}
use dns_entree.Dns.{Rr}
use dns_entree.Template.Names.{dot}
use dns_entree.Migrate.Convert.{Converted, kept, skipped, in_zone, rr_to_record}
use dns_entree.Migrate.Scrape.{add_converted}
use dns_entree.Migrate.Scrape.Walk.{
  Item, Walk, enqueue, as_cname, as_ns, follow, note_delegation, Progress, stopped, going,
  is_answer, scan_record, scan_records, scan_reply, scan_types,
}

-- An item found at an item of depth `k`.
abbrev pub IsNext : ℕ → Item → Type 0
IsNext k i = (i.depth ≡ suc k) × (k < 4)

-- The queue grows at its end, by items of the next level.
pub record Grows (k : ℕ) (w w' : Walk) : Type 0 where
  pub found : List Item
  pub next : All (IsNext k) found
  pub grown : w'.queue ≡ w.queue ++ found

same_queue : (k : ℕ) (w w' : Walk) → w'.queue ≡ w.queue → Grows k w w'
same_queue k w w' h = record { found = []; next = tt; grown = h ∙ sym (append-nil w.queue) }

Grows-trans : (k : ℕ) (u v w : Walk) → Grows k u v → Grows k v w → Grows k u w
Grows-trans k u v w g h = record {
  found = g.found ++ h.found;
  next = All-append (IsNext k) g.found h.found g.next h.next;
  grown = h.grown ∙ ap (λ q. q ++ h.found) g.grown ∙ append_assoc u.queue g.found h.found;
}

enqueue-Grows : (k : ℕ) (name : Bytes) (w : Walk) → k < 4 → Grows k w (enqueue name (k + 1) w)
unfolding enqueue
enqueue-Grows k name w h =
    if_rule (Grows k w) (any (str_eq (to_lower (trim_suffix name dot))) w.seen) _ _
      (same_queue k w w refl)
      (record {
        found = record { name = to_lower (trim_suffix name dot); depth = k + 1 } ∷ [];
        next = ((omega arith, h), tt);
        grown = refl;
      })

follow-Grows :
    (domain : Bytes) (item : Item) (target : Option Bytes) (w : Walk)
    → Grows item.depth w (follow domain item target w)
unfolding follow
follow-Grows domain item none w = same_queue item.depth w w refl
follow-Grows domain item (some host) w = elim (Bool-cases (ltb item.depth 4)) [
  | inl y ↦
      if_rule (Grows item.depth w) (ltb item.depth 4 && in_zone (trim_suffix host dot) domain) _ _
        (enqueue-Grows item.depth (trim_suffix host dot) w (ground arith))
        (same_queue item.depth w w refl)
  | inr n ↦ rw n (same_queue item.depth w w refl)
]

note_delegation-queue :
    (domain name : Bytes) (target : Option Bytes) (w : Walk)
    → (note_delegation domain name target w).queue ≡ w.queue
unfolding note_delegation
note_delegation-queue domain name none w = refl
note_delegation-queue domain name (some host) w =
    if_rule (λ (u : Walk). u.queue ≡ w.queue)
      (not (str_eq (to_lower name) (to_lower domain)) && not (any (str_eq name) w.added)) _ _ refl
      refl

abbrev pub GrowsTo : ℕ → Walk → Progress → Type 0
GrowsTo k w (stopped v) = Unit
GrowsTo k w (going v) = Grows k w v

module _ (quote : Bytes → Bytes) (type_name code_name : ℕ → Bytes) (text_of : Error → Bytes)
    (domain : Bytes) where
  scan_record-Grows :
      (item : Item) (rr : Rr) (c : Converted) (w : Walk)
      → Grows item.depth w (scan_record quote type_name code_name text_of domain item rr c w)
  unfolding scan_record
  scan_record-Grows item rr (skipped t) w = same_queue item.depth w _ refl
  scan_record-Grows item rr (kept rec) w =
      let u : Walk = record w { zone = add_converted (kept rec) w.zone } in
      let v = follow domain item (as_cname rr.body) u in
      Grows-trans item.depth w v _
        (Grows-trans item.depth w u v (same_queue item.depth w u refl)
          (follow-Grows domain item (as_cname rr.body) u))
        (same_queue item.depth v _ (note_delegation-queue domain _ (as_ns rr.body) v))

  scan_records-Grows :
      (item : Item) (rrs : List Rr) (w : Walk)
      → Grows item.depth w (scan_records quote type_name code_name text_of domain item rrs w)
  unfolding scan_records
  scan_records-Grows item [] w = same_queue item.depth w w refl
  scan_records-Grows item (rr ∷ rrs) w =
      let c = rr_to_record quote type_name (some rr) in
      let v =
        if in_zone rr.name domain
        then scan_record quote type_name code_name text_of domain item rr c w
        else w in
      Grows-trans item.depth w v _
        (if_rule (Grows item.depth w) (in_zone rr.name domain) _ _ (scan_record-Grows item rr c w)
          (same_queue item.depth w w refl))
        (scan_records-Grows item rrs v)

  scan_reply-Grows :
      (item : Item) (t : ℕ) (q : Result (List Rr × ℕ)) (w : Walk)
      → Grows item.depth w (scan_reply quote type_name code_name text_of domain item t q w)
  unfolding scan_reply
  scan_reply-Grows item t (err e) w = same_queue item.depth w _ refl
  scan_reply-Grows item t (ok (rrs, rcode)) w =
      if_rule (Grows item.depth w) (is_answer rcode) _ _ (scan_records-Grows item rrs w)
        (same_queue item.depth w _ refl)

  module _ (ask : Bytes → ℕ → Result (List Rr × ℕ)) (done : Bytes → ℕ → Bool) where
    Grows-progress :
        (k : ℕ) (w v : Walk) (p : Progress) → Grows k w v → GrowsTo k v p → GrowsTo k w p
    Grows-progress k w v (stopped u) g h = tt
    Grows-progress k w v (going u) g h = Grows-trans k w v u g h

    pub scan_types-Grows :
        (item : Item) (ts : List ℕ) (w : Walk)
        → GrowsTo item.depth w
            (scan_types quote type_name code_name text_of domain ask done item ts w)
    unfolding scan_types
    scan_types-Grows item [] w = same_queue item.depth w w refl
    scan_types-Grows item (t ∷ ts) w =
        let v = scan_reply quote type_name code_name text_of domain item t (ask item.name t) w in
        if_rule (GrowsTo item.depth w) (done item.name t) _ _ tt (
          Grows-progress item.depth w v _ (scan_reply-Grows item t (ask item.name t) w)
            (scan_types-Grows item ts v))
