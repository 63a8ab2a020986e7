-- ===== src/Verify/Laws.antt =====
-- What `Verify` reports, against the values that the servers answer with.
use dns_entree.Base.{
  ℕ, zero, suc, ◌+◌, ◌≤◌, ◌≡◌, refl, sym, subst, true, false, List, [], ◌∷◌, ◌++◌, Option, none,
  some, arith, length, length-append, find?, append-nil, inl, inr, ◌⊎◌,
}
use dns_entree.Text.{Bytes, trim_suffix, is_some}
use dns_entree.Record.Errors.{Error, Result, ok, err}
use dns_entree.Push.Steps.{VerifyOpts}
use dns_entree.Template.Names.{dot}
use dns_entree.Verify.{
  authoritative, recursive_fallback, VerifyResult, Network, record_type_code, matches, query_server,
  Seen, matched, unmatched, see_values, after_query, after_address, ask_servers, ask_authoritative,
  resolver_address, mark_method, after_fallback, fall_back, unverified, verify_typed, verify,
}
use dns_entree.Verify.Search.{first_value, Sees, see_values-Sees, Sees-append, Sees-first}

abbrev values : Result (List Bytes) → List Bytes
values (err e) = []
values (ok vs) = vs

abbrev answer : Network → VerifyOpts → ℕ → Result Bytes → List Bytes
answer net opts qtype (err e) = []
answer net opts qtype (ok addr) = values (query_server net addr opts.name qtype false)

-- The values that the first servers answer with, in order.
abbrev answers : Network → VerifyOpts → ℕ → ℕ → List Bytes → List Bytes
answers net opts qtype zero hosts = []
answers net opts qtype (suc n) [] = []
answers net opts qtype (suc n) (h ∷ hs) =
    answer net opts qtype (net.address_of (trim_suffix h dot)) ++ answers net opts qtype n hs

-- Every value that can be seen: those of two name servers of the domain, then the resolver's.
abbrev pub observed : Network → Bytes → VerifyOpts → ℕ → List Bytes
observed net domain opts qtype =
    answers net opts qtype 2 (values (net.lookup_ns domain))
    ++ values (query_server net (resolver_address net opts qtype) opts.name qtype true)

module _ (net : Network) (opts : VerifyOpts) (qtype : ℕ) where
  abbrev Goes : ℕ → List Bytes → (VerifyResult → Seen) → Type 0
  Goes n ys next =
      (r : VerifyResult)
      → r.verified ≡ false
      → length r.nameservers_queried + n ≤ 2
      → Sees opts.wanted 0 r.current_value ys (next r)

  after_seen :
      (n : ℕ) (c : Bytes) (xs ys : List Bytes) (s : Seen) (next : VerifyResult → Seen)
      → Sees opts.wanted n c xs s
      → Goes n ys next
      → Sees opts.wanted 0 c (xs ++ ys) (elim s [ matched r ↦ matched r | unmatched r ↦ next r ])
  after_seen n c xs ys (matched r) next h g = Sees-first opts.wanted n c xs ys r h
  after_seen n c xs ys (unmatched r) next (ver, f, e, k) g =
      Sees-append opts.wanted 0 c xs ys (next r) f
        (subst (λ d. Sees opts.wanted 0 d ys (next r)) e (g r ver k))

  after_query-Sees :
      (n : ℕ) (q : Result (List Bytes)) (ys : List Bytes) (r : VerifyResult)
      (next : VerifyResult → Seen)
      → r.verified ≡ false
      → length r.nameservers_queried + n ≤ 2
      → Goes n ys next
      → Sees opts.wanted 0 r.current_value (values q ++ ys) (after_query net opts qtype q r next)
  unfolding after_query
  after_query-Sees n (err e) ys r next h k g = g r h k
  after_query-Sees n (ok vs) ys r next h k g =
      after_seen n r.current_value vs ys (see_values opts.wanted authoritative vs r) next
        (see_values-Sees opts.wanted n authoritative vs r h k) g

  after_address-Sees :
      (n : ℕ) (addr : Result Bytes) (ys : List Bytes) (r : VerifyResult)
      (next : VerifyResult → Seen)
      → r.verified ≡ false
      → length r.nameservers_queried + n ≤ 2
      → Goes n ys next
      → Sees opts.wanted 0 r.current_value
          (answer net opts qtype addr ++ ys)
          (after_address net opts qtype addr r next)
  unfolding after_address
  after_address-Sees n (err e) ys r next h k g = g r h k
  after_address-Sees n (ok addr) ys r next h k g =
      after_query-Sees n (query_server net addr opts.name qtype false) ys r next h k g

  ask_servers-Sees :
      (n : ℕ) (hosts : List Bytes)
      → Goes n (answers net opts qtype n hosts) (ask_servers net opts qtype n hosts)
  unfolding ask_servers
  ask_servers-Sees zero hosts r h k = (h, refl, refl, k)
  ask_servers-Sees (suc n) [] r h k = (h, refl, refl, omega (arith, k))
  ask_servers-Sees (suc n) (x ∷ hs) r h k =
      let host = trim_suffix x dot in
      after_address-Sees n (net.address_of host) (answers net opts qtype n hs)
        (record r { nameservers_queried = r.nameservers_queried ++ host ∷ [] })
        (ask_servers net opts qtype n hs) h
        (omega (arith, k, length-append r.nameservers_queried (host ∷ []))) (ask_servers-Sees n hs)

  ask_authoritative-Sees :
      (servers : Result (List Bytes))
      → Sees opts.wanted 0 []
          (answers net opts qtype 2 (values servers))
          (ask_authoritative net opts qtype servers unverified)
  unfolding ask_authoritative
  ask_authoritative-Sees (err e) = (refl, refl, refl, omega arith)
  ask_authoritative-Sees (ok hosts) = ask_servers-Sees 2 hosts unverified refl (omega arith)

-- The value that is shown: the first match, or else the first value that is not empty.
abbrev pub shown : Option Bytes → List Bytes → Bytes
shown none vs = first_value [] vs
shown (some v) vs = v

-- The result, said by the values that can be seen.
pub record IsObserved (wanted : Bytes) (vs : List Bytes) (o : VerifyResult × Option Error)
    : Type 0 where
  pub verified : o.0.verified ≡ is_some (find? (λ v. matches v wanted) vs)
  pub value : o.0.current_value ≡ shown (find? (λ v. matches v wanted) vs) vs
  pub queried : length o.0.nameservers_queried ≤ 2
  pub clean : (o.1 ≡ none) ⊎ (vs ≡ [])

seen_matched :
    (wanted : Bytes) (vs : List Bytes) (r : VerifyResult)
    → Sees wanted 0 [] vs (matched r)
    → IsObserved wanted vs (r, none)
seen_matched wanted vs r (ver, (v, f, e), k) = record {
  verified = rw f ver;
  value = rw f e;
  queried = omega (arith, k);
  clean = inl refl;
}

seen_unmatched :
    (wanted : Bytes) (vs : List Bytes) (r : VerifyResult) (e : Option Error)
    → (e ≡ none) ⊎ (vs ≡ [])
    → Sees wanted 0 [] vs (unmatched r)
    → IsObserved wanted vs (r, e)
seen_unmatched wanted vs r e c (ver, f, value, k) = record {
  verified = rw f ver;
  value = rw f value;
  queried = omega (arith, k);
  clean = c;
}

marked :
    (net : Network) (opts : VerifyOpts) (qtype : ℕ) (c : Bytes) (xs vs : List Bytes)
    (r : VerifyResult)
    → Sees opts.wanted 0 c xs (unmatched r)
    → Sees opts.wanted 0 c xs (unmatched (mark_method net opts qtype vs r))
unfolding mark_method
marked net opts qtype c xs [] r h = h
marked net opts qtype c xs (v ∷ vs) r h = h

module _ (net : Network) (opts : VerifyOpts) (qtype : ℕ) where
  after_values :
      (xs vs : List Bytes) (s : Seen)
      → Sees opts.wanted 0 [] (xs ++ vs) s
      → IsObserved opts.wanted
          (xs ++ vs)
          (elim s [ matched r ↦ (r, none) | unmatched r ↦ (mark_method net opts qtype vs r, none) ])
  after_values xs vs (matched r) h = seen_matched opts.wanted (xs ++ vs) r h
  after_values xs vs (unmatched r) h =
      seen_unmatched opts.wanted (xs ++ vs) (mark_method net opts qtype vs r) none (inl refl)
        (marked net opts qtype [] (xs ++ vs) vs r h)

  after_fallback-IsObserved :
      (q servers : Result (List Bytes)) (r : VerifyResult)
      → Sees opts.wanted 0 [] (answers net opts qtype 2 (values servers)) (unmatched r)
      → IsObserved opts.wanted
          (answers net opts qtype 2 (values servers) ++ values q)
          (after_fallback net opts qtype q servers r)
  unfolding after_fallback
  after_fallback-IsObserved (err e) (err e') r h =
      seen_unmatched opts.wanted [] r (some e) (inr refl) h
  after_fallback-IsObserved (err e) (ok hosts) r h =
      let xs = answers net opts qtype 2 hosts in
      seen_unmatched opts.wanted (xs ++ []) r none (inl refl)
        (subst (λ ys. Sees opts.wanted 0 [] ys (unmatched r)) (sym (append-nil xs)) h)
  after_fallback-IsObserved (ok vs) servers r (ver, f, e, k) =
      let xs = answers net opts qtype 2 (values servers) in
      let s = see_values opts.wanted recursive_fallback vs r in
      after_values xs vs s (
        Sees-append opts.wanted 0 [] xs vs s f (
          subst (λ d. Sees opts.wanted 0 d vs s) e
            (see_values-Sees opts.wanted 0 recursive_fallback vs r ver k)))

  fall_back-IsObserved :
      (servers : Result (List Bytes)) (s : Seen)
      → Sees opts.wanted 0 [] (answers net opts qtype 2 (values servers)) s
      → IsObserved opts.wanted
          (answers net opts qtype 2 (values servers)
            ++ values (query_server net (resolver_address net opts qtype) opts.name qtype true))
          (fall_back net opts qtype servers s)
  unfolding fall_back
  fall_back-IsObserved servers (matched r) h =
      let xs = answers net opts qtype 2 (values servers) in
      let ys = values (query_server net (resolver_address net opts qtype) opts.name qtype true) in
      seen_matched opts.wanted (xs ++ ys) r (Sees-first opts.wanted 0 [] xs ys r h)
  fall_back-IsObserved servers (unmatched r) h =
      after_fallback-IsObserved
        (query_server net (resolver_address net opts qtype) opts.name qtype true) servers r h

-- For a supported type, the record is verified exactly where one of the values that the first two
-- name servers, and then the resolver, answer with matches; the value that is reported is the first
-- match, or else the first value that is not empty; at most two name servers are asked; and there is
-- an error only where no value was seen.
pub verify-IsObserved :
    (net : Network) (domain : Bytes) (opts : VerifyOpts) (qtype : ℕ)
    → record_type_code opts.record_type ≡ some qtype
    → IsObserved opts.wanted (observed net domain opts qtype) (verify net domain opts)
unfolding verify verify_typed
verify-IsObserved net domain opts qtype h = rw h (
    fall_back-IsObserved net opts qtype (net.lookup_ns domain)
      (ask_authoritative net opts qtype (net.lookup_ns domain) unverified)
      (ask_authoritative-Sees net opts qtype (net.lookup_ns domain)))
