-- ===== src/Migrate/Target/Finds.antt =====
-- The outcome for a record against the replies of the name servers.
use dns_entree.Base.{
  ℕ, ◌≡◌, refl, sym, ap, ◌∙◌, Bool, true, false, ◌||◌, not, List, [], ◌∷◌, Option, none, some,
  arith, any, Bool-cases, inl, inr, ◌⊎◌,
}
use dns_entree.Text.{Bytes}
use dns_entree.Record.{Record}
use dns_entree.Record.Errors.{Result, ok, err}
use dns_entree.Dns.{Answers}
use dns_entree.Migrate.Convert.{Converted, kept, skipped, rr_to_record}
use dns_entree.Migrate.Target.{
  Detail, silent, matched_on, differs, resolve_failed, exchange_failed, Checked,
  type_string_to_code, records_match, Target, no_answers, compare_answer, see_answers,
  after_exchange, after_resolve, ask_each, ask_typed, verify_record_against_ns,
}

abbrev answers_in : Result (Option Answers) → Answers
answers_in (err e) = []
answers_in (ok none) = []
answers_in (ok (some rrs)) = rrs

abbrev reply_at : Target → Record → ℕ → Result Bytes → Answers
reply_at target rec qtype (err e) = []
reply_at target rec qtype (ok addr) = answers_in (target.exchange addr rec.name qtype)

-- What a name server answers to the question for the record; nothing where it is not reached.
abbrev pub reply : Target → Record → ℕ → Bytes → Answers
reply target rec qtype host = reply_at target rec qtype (target.resolve host)

or_true : (g : Bool) → (g || true) ≡ true
or_true g = ground arith

or_false : (g : Bool) → (g || false) ≡ g
or_false g = ground arith

or_assoc : (f g h : Bool) → ((f || g) || h) ≡ (f || (g || h))
or_assoc f g h = ground arith

module _ (quote : Bytes → Bytes) (type_name : ℕ → Bytes) (rec : Record) where
  abbrev pub is_match : Converted → Bool
  is_match (kept got) = records_match rec got
  is_match (skipped text) = false

  -- One of the answers is the record.
  abbrev pub is_hit : Answers → Bool
  is_hit rrs = any (λ rr. is_match (rr_to_record quote type_name rr)) rrs

  abbrev hit_by : Bytes → Checked
  hit_by server = record { matched = true; got_any = true; detail = matched_on server }

  abbrev Ends : Bytes → Answers → (Detail → Checked) → Checked → Type 0
  Ends server rrs next c =
      ((is_hit rrs ≡ true) × (c ≡ hit_by server))
      ⊎ ((is_hit rrs ≡ false) × ((d : Detail) × (c ≡ next d)))

  compare-Ends :
      (server : Bytes) (v : Converted) (d : Detail) (more : Bool) (next rest : Detail → Checked)
      → ((e : Detail)
          → ((more ≡ true) × (rest e ≡ hit_by server))
            ⊎ ((more ≡ false) × ((d' : Detail) × (rest e ≡ next d'))))
      → ((is_match v || more ≡ true) × (compare_answer rec server v d rest ≡ hit_by server))
        ⊎ ((is_match v || more ≡ false)
            × ((d' : Detail) × (compare_answer rec server v d rest ≡ next d')))
  unfolding compare_answer
  compare-Ends server (skipped t) d more next rest h = h d
  compare-Ends server (kept got) d more next rest h = elim (Bool-cases (records_match rec got)) [
    | inl y ↦ rw y (inl (refl, refl))
    | inr n ↦ rw n (h (differs got rec))
  ]

  see_answers-Ends :
      (server : Bytes) (rrs : Answers) (d : Detail) (next : Detail → Checked)
      → Ends server rrs next (see_answers quote type_name rec server rrs d next)
  unfolding see_answers
  see_answers-Ends server [] d next = inr (refl, (d, refl))
  see_answers-Ends server (rr ∷ rrs) d next =
      compare-Ends server (rr_to_record quote type_name rr) d (is_hit rrs) next
        (λ e. see_answers quote type_name rec server rrs e next)
        (λ e. see_answers-Ends server rrs e next)

  -- What is found, by the answers that are left and whether there was one before.
  pub record Finds (target : Target) (qtype : ℕ) (hosts : List Bytes) (g : Bool) (c : Checked)
      : Type 0 where
    pub matched : c.matched ≡ any (λ h. is_hit (reply target rec qtype h)) hosts
    pub got_any : c.got_any ≡ g || any (λ h. not (no_answers (reply target rec qtype h))) hosts

  hit-not_empty : (rrs : Answers) → is_hit rrs ≡ true → no_answers rrs ≡ false
  unfolding no_answers
  hit-not_empty [] h = cc
  hit-not_empty (rr ∷ rrs) h = refl

  module _ (target : Target) (qtype : ℕ) where
    -- The reply of the first server in front of the others.
    first_reply :
        (server : Bytes) (hosts : List Bytes) (rrs : Answers) (g : Bool) (c : Checked)
        (next : Detail → Checked)
        → reply target rec qtype server ≡ rrs
        → Ends server rrs next c
        → ((d : Detail) → Finds target qtype hosts (g || not (no_answers rrs)) (next d))
        → Finds target qtype (server ∷ hosts) g c
    first_reply server hosts rrs g c next r (inl (hit, e)) h = record {
      matched = rw (e, r, hit) refl;
      got_any = rw (e, r, hit-not_empty rrs hit) (sym (or_true g));
    }
    first_reply server hosts rrs g c next r (inr (miss, (d, e))) h = record {
      matched = rw (e, r, miss) (h d).matched;
      got_any = rw (e, r) ((h d).got_any ∙ or_assoc g _ _);
    }

    after_exchange-Finds :
        (server : Bytes) (hosts : List Bytes) (x : Result (Option Answers)) (g : Bool) (d : Detail)
        (next : Bool → Detail → Checked)
        → reply target rec qtype server ≡ answers_in x
        → ((b : Bool) (e : Detail) → Finds target qtype hosts b (next b e))
        → Finds target qtype
            (server ∷ hosts)
            g
            (after_exchange quote type_name rec server x g d next)
    unfolding after_exchange no_answers
    after_exchange-Finds server hosts (err e) g d next r h =
        first_reply server hosts [] g (next g (exchange_failed e)) (next g) r
          (inr (refl, (exchange_failed e, refl))) (λ f. rw or_false (h g f))
    after_exchange-Finds server hosts (ok none) g d next r h =
        first_reply server hosts [] g (next g d) (next g) r (inr (refl, (d, refl)))
          (λ f. rw or_false (h g f))
    after_exchange-Finds server hosts (ok (some rrs)) g d next r h =
        first_reply server hosts rrs g _ (next (g || not (no_answers rrs))) r
          (see_answers-Ends server rrs d (next (g || not (no_answers rrs))))
          (h (g || not (no_answers rrs)))

    after_resolve-Finds :
        (server : Bytes) (hosts : List Bytes) (a : Result Bytes) (g : Bool) (d : Detail)
        (next : Bool → Detail → Checked)
        → target.resolve server ≡ a
        → ((b : Bool) (e : Detail) → Finds target qtype hosts b (next b e))
        → Finds target qtype
            (server ∷ hosts)
            g
            (after_resolve quote type_name target rec qtype server a g d next)
    unfolding after_resolve no_answers
    after_resolve-Finds server hosts (err e) g d next r h =
        first_reply server hosts [] g (next g (resolve_failed e)) (next g)
          (ap (reply_at target rec qtype) r) (inr (refl, (resolve_failed e, refl)))
          (λ f. rw or_false (h g f))
    after_resolve-Finds server hosts (ok addr) g d next r h =
        after_exchange-Finds server hosts (target.exchange addr rec.name qtype) g d next
          (ap (reply_at target rec qtype) r) h

    ask_each-Finds :
        (hosts : List Bytes) (g : Bool) (d : Detail)
        → Finds target qtype hosts g (ask_each quote type_name target rec qtype hosts g d)
    unfolding ask_each
    ask_each-Finds [] g d = record { matched = refl; got_any = sym (or_false g) }
    ask_each-Finds (x ∷ hosts) g d =
        after_resolve-Finds x hosts (target.resolve x) g d _ refl (ask_each-Finds hosts)

  -- A record of a type that can be asked for is matched exactly where one of the answers of the name
  -- servers is that record, and something was found exactly where one of them answers anything.
  pub verify_record_against_ns-Finds :
      (target : Target) (hosts : List Bytes) (qtype : ℕ)
      → type_string_to_code rec.typ ≡ some qtype
      → Finds target qtype hosts false (verify_record_against_ns quote type_name target hosts rec)
  unfolding verify_record_against_ns ask_typed
  verify_record_against_ns-Finds target hosts qtype h =
      rw h (ask_each-Finds target qtype hosts false silent)
