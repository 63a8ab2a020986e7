-- ===== src/Migrate/Scrape/Ends.antt =====
-- The walk ends: a name that is queued lies one level deeper, and at depth four nothing is queued.
use dns_entree.Base.{
  ℕ, zero, suc, ◌+◌, ◌≤◌, ◌≡◌, refl, sym, ap, ◌∙◌, subst, Bool, List, [], ◌∷◌, ◌++◌, none, some,
  arith, any, if_rule, All, All-append, All-map, append_assoc, append-nil,
}
use dns_entree.Text.{Bytes, str_eq, to_lower, trim_suffix}
use dns_entree.Record.Errors.{Error, Result}
use dns_entree.Dns.{Rr}
use dns_entree.Template.Names.{dot}
use dns_entree.Migrate.Scrape.{Zone}
use dns_entree.Migrate.Scrape.Walk.{
  Item, Walk, query_types, enqueue, Progress, stopped, going, scan_types, after_scan, after_pop,
  walk_queue, enqueue_labels, start_walk, walked, zone_of, iterated_scrape,
}
use dns_entree.Migrate.Scrape.Grows.{IsNext, Grows, GrowsTo, scan_types-Grows}

enqueue_at_top :
    (name : Bytes) (w : Walk)
    → All (λ i. (i.depth ≡ 0) × (0 ≤ 4)) w.queue
    → All (λ i. (i.depth ≡ 0) × (0 ≤ 4)) (enqueue name 0 w).queue
unfolding enqueue
enqueue_at_top name w h =
    if_rule (λ (u : Walk). All (λ i. (i.depth ≡ 0) × (0 ≤ 4)) u.queue)
      (any (str_eq (to_lower (trim_suffix name dot))) w.seen) _ _ h
      (All-append (λ i. (i.depth ≡ 0) × (0 ≤ 4)) w.queue _ h ((refl, omega arith), tt))

labels_at_top :
    (domain : Bytes) (ls : List Bytes) (w : Walk)
    → All (λ i. (i.depth ≡ 0) × (0 ≤ 4)) w.queue
    → All (λ i. (i.depth ≡ 0) × (0 ≤ 4)) (enqueue_labels domain ls w).queue
unfolding enqueue_labels
labels_at_top domain [] w h = h
labels_at_top domain (l ∷ ls) w h = labels_at_top domain ls _ (enqueue_at_top _ w h)

module _ (quote : Bytes → Bytes) (type_name code_name : ℕ → Bytes) (text_of : Error → Bytes)
    (domain : Bytes) where
  module _ (ask : Bytes → ℕ → Result (List Rr × ℕ)) (done : Bytes → ℕ → Bool) where
    start_depths :
        (ls : List Bytes)
        → All
            (λ i. (i.depth ≡ 0) × (0 ≤ 4))
            (start_walk quote type_name code_name text_of domain ask done ls).queue
    unfolding start_walk
    start_depths ls = labels_at_top domain ls _ tt

    -- Some fuel is enough from here.
    abbrev Ending : Walk → Type 0
    Ending w =
        (fuel : ℕ) × (r : Progress) × (walk_queue quote type_name code_name text_of domain ask done
            fuel w
          ≡ some r)

    no_items : (w : Walk) → w.queue ≡ [] → Ending w
    unfolding walk_queue after_pop
    no_items w h = (
      1,
      going w,
      subst
          (λ q.
            after_pop quote type_name code_name text_of domain ask done q w (λ v. none)
            ≡ some (going w))
          (sym h) refl,
    )

    scanned :
        (k : ℕ) (w : Walk) (p : Progress)
        → (GrowsTo k w p)
        → ((v : Walk) → Grows k w v → Ending v)
        → (fuel : ℕ) × (r : Progress) × (after_scan quote type_name code_name text_of domain ask
              done p
              (walk_queue quote type_name code_name text_of domain ask done fuel)
            ≡ some r)
    scanned k w (stopped v) g next = (0, stopped v, refl)
    scanned k w (going v) g next = next v g

    after_item :
        (item : Item) (rest : List Item) (w : Walk)
        → w.queue ≡ item ∷ rest
        → ((v : Walk) → Grows item.depth (record w { queue = rest }) v → Ending v)
        → Ending w
    unfolding walk_queue after_pop
    after_item item rest w h next =
        let (fuel, r, e) =
          scanned item.depth (record w { queue = rest })
            (scan_types quote type_name code_name text_of domain ask done item query_types
              (record w { queue = rest }))
            (scan_types-Grows quote type_name code_name text_of domain ask done item query_types
              (record w { queue = rest }))
            next in
        (
          suc fuel,
          r,
          subst
              (λ q.
                after_pop quote type_name code_name text_of domain ask done q w
                  (walk_queue quote type_name code_name text_of domain ask done fuel)
                ≡ some r)
              (sym h) e,
        )

    -- The items of one level, and those of the next level that were found so far.
    level :
        (k : ℕ) (xs ys : List Item) (w : Walk)
        → ((zs : List Item) (v : Walk) → All (IsNext k) zs → v.queue ≡ zs → Ending v)
        → All (λ i. i.depth ≡ k) xs
        → All (IsNext k) ys
        → w.queue ≡ xs ++ ys
        → Ending w
    level k [] ys w next hx hy h = next ys w hy h
    level k (x ∷ xs) ys w next (hd, hx) hy h = after_item x (xs ++ ys) w h (λ v g.
        level k xs (ys ++ g.found) v next hx
          (All-append (IsNext k) ys g.found hy (subst (λ d. All (IsNext d) g.found) hd g.next))
          (g.grown ∙ append_assoc xs ys g.found))

    -- By the number of levels that are left.
    levels :
        (n k : ℕ) (zs : List Item) (w : Walk)
        → 5 ≤ n + k
        → All (λ i. (i.depth ≡ k) × (k ≤ 4)) zs
        → w.queue ≡ zs
        → Ending w
    levels n k [] w b hz h = no_items w h
    levels zero k (z ∷ zs) w b ((hd, hk), hz) h = absurd (too_deep k b hk)
      where
        too_deep : (k : ℕ) → 5 ≤ 0 + k → k ≤ 4 → ⊥
        too_deep k b hk = omega (arith, b, hk)
    levels (suc n) k (z ∷ zs) w b hz h =
        level k (z ∷ zs) [] w
          (λ ys v hy q.
            levels n (suc k) ys v (omega (arith, b))
              (All-map (λ i p. (p.0, omega (arith, p.1))) ys hy) q)
          (All-map (λ i p. p.0) (z ∷ zs) hz) tt (h ∙ sym (append-nil (z ∷ zs)))

    -- The walk over the queue ends, whatever the servers answer: there is a fuel with which the
    -- scrape gives its result, a zone or the error that the context is done.
    pub iterated_scrape-Ends :
        (ls : List Bytes)
        → (fuel : ℕ) × (r : Result Zone) × (iterated_scrape quote type_name code_name text_of domain
              ask done fuel ls
            ≡ some r)
    unfolding iterated_scrape zone_of
    iterated_scrape-Ends ls =
        let w = start_walk quote type_name code_name text_of domain ask done ls in
        let (fuel, p, e) = levels 5 0 w.queue w (omega arith) (start_depths ls) refl in
        (
          fuel,
          walked quote type_name code_name text_of domain ask done p,
          ap (zone_of quote type_name code_name text_of domain ask done) e,
        )
