-- ===== src/Migrate/Target/Round.antt =====
-- The summary of a round of verification, and the statuses that it gives.
use dns_entree.Base.{
  ℕ, ◌+◌, ◌≡◌, refl, sym, ap, ◌∙◌, Bool, true, false, List, [], ◌∷◌, ◌++◌, map, some, if◌then◌else◌,
  arith, length, select, append_assoc, append-nil,
}
use dns_entree.Text.{Bytes, codes, str_eq}
use dns_entree.Record.{Record}
use dns_entree.Record.Errors.{Error, ok, err}
use dns_entree.Migrate.Target.{
  Checked, Target, verify_record_against_ns, VerifyResult, VerifyTargetSummary, is_told, status_of,
  one_if, verify_each, verify_against_ns,
}

named_matched :
    (m g t : Bool)
    → str_eq
        (if m
          then codes "matched"
          else if g
          then codes "mismatch"
          else if t
          then codes "not_yet_propagated"
          else codes "error")
        (codes "matched")
      ≡ m
unfolding str_eq
named_matched true g t = refl
named_matched false true t = refl
named_matched false false true = refl
named_matched false false false = refl

count_one :
    (b : Bool) (n : ℕ) (x : VerifyResult) (xs : List VerifyResult)
    → one_if b n + length xs ≡ n + length (if b then x ∷ xs else xs)
count_one true n x xs = omega arith
count_one false n x xs = refl

module _ (quote : Bytes → Bytes) (type_name : ℕ → Bytes) (target : Target)
    (hosts : List Bytes) where
  -- The outcome of one record, by itself.
  abbrev outcome_of : Record → VerifyResult
  outcome_of rec =
      let c = verify_record_against_ns quote type_name target hosts rec in
      record { rec = rec; status = status_of c; detail = c.detail }

  -- The summary counts the records whose status is `matched`.
  pub record IsSummary (records : List Record) (s : VerifyTargetSummary) : Type 0 where
    pub results : s.results ≡ map outcome_of records
    pub total : s.total ≡ length records
    pub matched : s.matched ≡ length (select (λ r. str_eq r.status (codes "matched")) s.results)

  verify_each-results :
      (records : List Record) (out : VerifyTargetSummary)
      → (verify_each quote type_name target hosts records out).results
        ≡ out.results ++ map outcome_of records
  unfolding verify_each
  verify_each-results [] out = sym (append-nil out.results)
  verify_each-results (r ∷ rs) out =
      verify_each-results rs _ ∙ append_assoc out.results (outcome_of r ∷ []) (map outcome_of rs)

  verify_each-total :
      (records : List Record) (out : VerifyTargetSummary)
      → (verify_each quote type_name target hosts records out).total ≡ out.total
  unfolding verify_each
  verify_each-total [] out = refl
  verify_each-total (r ∷ rs) out = verify_each-total rs _

  status_of-matched : (c : Checked) → str_eq (status_of c) (codes "matched") ≡ c.matched
  unfolding status_of
  status_of-matched c = named_matched c.matched c.got_any (is_told c.detail)

  verify_each-matched :
      (records : List Record) (out : VerifyTargetSummary)
      → (verify_each quote type_name target hosts records out).matched
        ≡ out.matched
          + length (select (λ r. str_eq r.status (codes "matched")) (map outcome_of records))
  unfolding verify_each
  verify_each-matched [] out = omega arith
  verify_each-matched (r ∷ rs) out =
      let c = verify_record_against_ns quote type_name target hosts r in
      let later = select (λ x. str_eq x.status (codes "matched")) (map outcome_of rs) in
      verify_each-matched rs _
      ∙ count_one c.matched out.matched (outcome_of r) later
      ∙ ap (λ b. out.matched + length (if b then outcome_of r ∷ later else later))
          (sym (status_of-matched c))

  -- One round of verification has a result for every record, in order, its own outcome whatever the
  -- others are; the total is their number, and `matched` counts those with the status `matched`.
  pub verify_against_ns-IsSummary :
      (records : List Record)
      → IsSummary records (verify_against_ns quote type_name target hosts records)
  unfolding verify_against_ns
  verify_against_ns-IsSummary records =
      let out : VerifyTargetSummary = record {
        matched = 0;
        total = length records;
        results = [];
      } in
      record {
        results = verify_each-results records out;
        total = verify_each-total records out;
        matched = omega (
          arith,
          verify_each-matched records out,
          ap (λ rs. length (select (λ r. str_eq r.status (codes "matched")) rs))
              (verify_each-results records out),
        );
      }

-- The name server has no address, or it replies without any answer.
abbrev pub IsUnreachable : Target → Bytes → Type 0
IsUnreachable target host = (e : Error) × (target.resolve host ≡ err e)

abbrev pub IsEmpty : Target → Record → ℕ → Bytes → Type 0
IsEmpty target rec qtype host =
    (addr : Bytes) × (target.resolve host ≡ ok addr)
    × (target.exchange addr rec.name qtype ≡ ok (some []))
