-- ===== src/Push/Apply.antt =====
-- apply.go: `DefaultApplyRecords`, which stops at the first record that the provider refuses.
use dns_entree.Base.{List, [], ◌∷◌, ◌++◌, Option, none, some, ◌≡◌, refl, ap, inl, inr, ◌⊎◌}
use dns_entree.Text.{Bytes}
use dns_entree.Record.{Record, Provider}
use dns_entree.Record.Errors.{Error, Result, ok, err}

-- The error names the record.
pub record Refusal : Type 0 where
  pub refused : Record
  pub cause : Error

module _ {S : Type 0} (p : Provider S) (domain : Bytes) where
  unfoldable pub after_set :
      Record → Result (Unit {0}) × S → (S → Option Refusal × S) → Option Refusal × S
  after_set r (err e, s) rest = (some (record { refused = r; cause = e }), s)
  after_set r (ok u, s) rest = rest s

  unfoldable pub default_apply_records : List Record → S → Option Refusal × S
  unfolding after_set
  default_apply_records [] s = (none, s)
  default_apply_records (r ∷ rs) s =
      after_set r (p.set_record domain r s) (default_apply_records rs)

  -- `Applied s rs t`: from `s`, every record of `rs` is accepted in order, and `t` is the state after.
  pub data Applied : S → List Record → S → Type 0 where
    done : (s : S) → Applied s [] s
    accept :
        {s u : S} (r : Record) {rs : List Record}
        → (p.set_record domain r s).0 ≡ ok tt
        → Applied (p.set_record domain r s).1 rs u
        → Applied s (r ∷ rs) u

  after_set-cases :
      (r : Record) (w : Result (Unit {0}) × S) (rest : S → Option Refusal × S)
      → ((w.0 ≡ ok tt) × (after_set r w rest ≡ rest w.1))
        ⊎ ((e : Error) × (w.0 ≡ err e)
            × (after_set r w rest ≡ (some (record { refused = r; cause = e }), w.1)))
  unfolding after_set
  after_set-cases r (err e, s) rest = inr (e, refl, refl)
  after_set-cases r (ok u, s) rest = inl (refl, refl)

  -- What a refusal means: the records before the refused one were accepted in order, the next call
  -- is the refused one, and nothing of the rest was sent.
  pub record StoppedAt (s : S) (rs : List Record) (f : Refusal) (t : S) : Type 0 where
    pub before : List Record
    pub after : List Record
    pub middle : S
    pub parts : rs ≡ before ++ (f.refused ∷ after)
    pub accepted : Applied s before middle
    pub refuses : p.set_record domain f.refused middle ≡ (err f.cause, t)

  stop_here :
      (r : Record) (rs : List Record) (s : S) (e : Error)
      → (p.set_record domain r s).0 ≡ err e
      → StoppedAt s (r ∷ rs) (record { refused = r; cause = e }) (p.set_record domain r s).1
  stop_here r rs s e h = record {
    before = [];
    after = rs;
    middle = s;
    parts = refl;
    accepted = done s;
    refuses = λ i. (h i, (p.set_record domain r s).1);
  }

  stop_later :
      (r : Record) (rs : List Record) (s t : S) (f : Refusal)
      → (p.set_record domain r s).0 ≡ ok tt
      → StoppedAt (p.set_record domain r s).1 rs f t
      → StoppedAt s (r ∷ rs) f t
  stop_later r rs s t f h k = record {
    before = r ∷ k.before;
    after = k.after;
    middle = k.middle;
    parts = ap (λ xs. r ∷ xs) k.parts;
    accepted = accept r h k.accepted;
    refuses = k.refuses;
  }

  abbrev pub Explains : S → List Record → Option Refusal × S → Type 0
  Explains s rs (none, t) = Applied s rs t
  Explains s rs (some f, t) = StoppedAt s rs f t

  later-Explains :
      (r : Record) (rs : List Record) (s : S) (o : Option Refusal × S)
      → (p.set_record domain r s).0 ≡ ok tt
      → Explains (p.set_record domain r s).1 rs o
      → Explains s (r ∷ rs) o
  later-Explains r rs s (none, t) h k = accept r h k
  later-Explains r rs s (some f, t) h k = stop_later r rs s t f h k

  -- Without an error every record was accepted, in order; with one, the records before the refused
  -- one were accepted and none after it was sent.
  pub default_apply_records-Explains :
      (rs : List Record) (s : S) → Explains s rs (default_apply_records rs s)
  unfolding default_apply_records
  default_apply_records-Explains [] s = done s
  default_apply_records-Explains (r ∷ rs) s =
      elim (after_set-cases r (p.set_record domain r s) (default_apply_records rs)) [
        | inl (h, e) ↦ rw e (
            later-Explains r rs s (default_apply_records rs (p.set_record domain r s).1) h
              (default_apply_records-Explains rs (p.set_record domain r s).1))
        | inr (e, h, q) ↦ rw q (stop_here r rs s e h)
      ]
