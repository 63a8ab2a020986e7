-- ===== src/Migrate/Run/Rounds.antt =====
-- The rounds of verification against the fate of each record by itself.
use dns_entree.Base.{
  ℕ, zero, suc, ◌+◌, ◌≡◌, ◌∙◌, Bool, true, false, List, [], ◌∷◌, ◌++◌, map, Option, none, some,
  if◌then◌else◌, arith, length, select, Bool-cases, inl, inr,
}
use dns_entree.Record.{Record}
use dns_entree.Migrate.Target.{Checked}
use dns_entree.Migrate.Run.{
  RecordResult, verdict, keep_result, keep_pending, unanswered, timed_out, settled, still,
  after_round, verify_rounds,
}

-- How many of the results pass a test.
abbrev pub tally {ℓ} : {A : Type ℓ} → (A → Bool) → List A → ℕ
tally q xs = length (select q xs)

pub tally-append {ℓ} :
    {A : Type ℓ} (q : A → Bool) (xs ys : List A) → tally q (xs ++ ys) ≡ tally q xs + tally q ys
tally-append q [] ys = omega arith
tally-append q (x ∷ xs) ys = elim (Bool-cases (q x)) [
  | inl y ↦ rw y (omega (arith, tally-append q xs ys))
  | inr n ↦ rw n (tally-append q xs ys)
]

abbrev pub decided : Option RecordResult → RecordResult → RecordResult
decided none later = later
decided (some r) later = r

abbrev Both : Type 0
Both = List RecordResult × Bool

-- Nothing is stopped where the context is not done.
go_on :
    (q : RecordResult → Bool) (b : Bool) (out stop : List RecordResult)
    (rest : List RecordResult × Bool) (later : List RecordResult)
    → (if◌then◌else◌ {A = Both} b (stop, true) (out ++ rest.0, rest.1)).1 ≡ false
    → (rest.1 ≡ false → tally q rest.0 ≡ tally q later)
    → tally q (if◌then◌else◌ {A = Both} b (stop, true) (out ++ rest.0, rest.1)).0
      ≡ tally q out + tally q later
go_on q true out stop rest later h next = cc
go_on q false out stop rest later h next = omega (arith, tally-append q out rest.0, next h)

module _ (check : ℕ → Record → Checked) (done : ℕ → Bool) where
  -- What becomes of a record by itself: the first round in which a server answers decides, and
  -- without one it times out.
  abbrev pub fate : ℕ → ℕ → Record → RecordResult
  fate zero k rec = decided (verdict rec (check k rec)) (unanswered timed_out rec)
  fate (suc left) k rec = decided (verdict rec (check k rec)) (fate left (suc k) rec)

  split_one :
      (q : RecordResult → Bool) (f : Record → RecordResult) (rec : Record) (v : Option RecordResult)
      (xs : List RecordResult) (ys : List Record) (zs : List RecordResult)
      → tally q xs + tally q (map f ys) ≡ tally q zs
      → tally q (keep_result v xs) + tally q (map f (keep_pending rec v ys))
        ≡ tally q (decided v (f rec) ∷ zs)
  split_one q f rec none xs ys zs h = elim (Bool-cases (q (f rec))) [
    | inl y ↦ rw y (omega (arith, h))
    | inr n ↦ rw n h
  ]
  split_one q f rec (some r) xs ys zs h = elim (Bool-cases (q r)) [
    | inl y ↦ rw y (omega (arith, h))
    | inr n ↦ rw n h
  ]

  -- A round splits the records into those that are decided and those that are left.
  split_round :
      (q : RecordResult → Bool) (f : Record → RecordResult) (k : ℕ) (recs : List Record)
      → tally q (settled check done k recs) + tally q (map f (still check done k recs))
        ≡ tally q (map (λ r. decided (verdict r (check k r)) (f r)) recs)
  unfolding settled still
  split_round q f k [] = omega arith
  split_round q f k (r ∷ rs) =
      split_one q f r (verdict r (check k r)) (settled check done k rs) (still check done k rs)
        (map (λ x. decided (verdict x (check k x)) (f x)) rs) (split_round q f k rs)

  after_round-tally :
      (q : RecordResult → Bool) (f : Record → RecordResult) (k : ℕ) (out : List RecordResult)
      (left : List Record) (rest : List RecordResult × Bool)
      → (after_round check done k out left rest).1 ≡ false
      → (rest.1 ≡ false → tally q rest.0 ≡ tally q (map f left))
      → tally q (after_round check done k out left rest).0 ≡ tally q out + tally q (map f left)
  unfolding after_round
  after_round-tally q f k out [] rest h next = omega arith
  after_round-tally q f k out (r ∷ rs) rest h next =
      go_on q (done k) out _ rest (map f (r ∷ rs)) h next

  -- Where the context is not done before the end, the results are the fates of the records, each
  -- once: the rounds that they share, and the early end when nothing is left, change nothing.
  pub verify_rounds-fate :
      (q : RecordResult → Bool) (left k : ℕ) (recs : List Record)
      → (verify_rounds check done left k recs).1 ≡ false
      → tally q (verify_rounds check done left k recs).0 ≡ tally q (map (fate left k) recs)
  unfolding verify_rounds
  verify_rounds-fate q zero k recs h =
      tally-append q (settled check done k recs) _ ∙ split_round q (unanswered timed_out) k recs
  verify_rounds-fate q (suc left) k recs h =
      after_round-tally q (fate left (suc k)) k (settled check done k recs)
        (still check done k recs) (verify_rounds check done left (suc k) (still check done k recs))
        h (verify_rounds-fate q left (suc k) (still check done k recs))
      ∙ split_round q (fate left (suc k)) k recs
