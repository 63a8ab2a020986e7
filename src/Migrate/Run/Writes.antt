-- ===== src/Migrate/Run/Writes.antt =====
-- The writes of a migration that end without an error.
use dns_entree.Base.{ℕ, suc, ◌≡◌, refl, sym, ap, subst, false, List, [], ◌∷◌, Option, none, some}
use dns_entree.Text.{Bytes}
use dns_entree.Record.{Record, Provider}
use dns_entree.Record.Errors.{Error, Result, ok, err}
use dns_entree.Push.Apply.{Applied, done, accept}
use dns_entree.Migrate.Run.{Written, after_write, after_wait, write_all}

module _ {S : Type 0} (p : Provider S) (text_of : Error → Bytes) (domain : Bytes) where
  -- The writes without an error: nothing failed, nothing was halted, and the provider accepted every
  -- record, in order.
  pub record IsClean (s : S) (recs : List Record) (w : Written S) : Type 0 where
    pub applied : w.applied ≡ recs
    pub failures : w.failures ≡ []
    pub halted : w.halted ≡ false
    pub written : Applied p domain s recs w.state

  after_write-IsClean :
      (rec : Record) (recs : List Record) (s : S) (w : Result (Unit {0}) × S) (next : S → Written S)
      → p.set_record domain rec s ≡ w
      → (after_write p text_of domain rec w next).errors ≡ []
      → ((t : S) → (next t).errors ≡ [] → IsClean t recs (next t))
      → IsClean s (rec ∷ recs) (after_write p text_of domain rec w next)
  unfolding after_write
  after_write-IsClean rec recs s (err e, t) next q h g = cc
  after_write-IsClean rec recs s (ok u, t) next q h g =
      let c = g t h in
      record {
        applied = ap (λ xs. rec ∷ xs) c.applied;
        failures = c.failures;
        halted = c.halted;
        written = accept rec (ap (λ (x : Result (Unit {0}) × S). x.0) q) (
            subst (λ (x : Result (Unit {0}) × S). Applied p domain x.1 recs (next t).state) (sym q)
              c.written);
      }

  after_wait-IsClean :
      (recs : List Record) (o : Option Error) (s : S) (next : S → Written S)
      → (after_wait p text_of domain o s next).errors ≡ []
      → ((next s).errors ≡ [] → IsClean s recs (next s))
      → IsClean s recs (after_wait p text_of domain o s next)
  unfolding after_wait
  after_wait-IsClean recs (some e) s next h g = cc
  after_wait-IsClean recs none s next h g = g h

  pub write_all-IsClean :
      (wait : ℕ → Option Error) (k : ℕ) (recs : List Record) (s : S)
      → (write_all p text_of domain wait k recs s).errors ≡ []
      → IsClean s recs (write_all p text_of domain wait k recs s)
  unfolding write_all
  write_all-IsClean wait k [] s h = record {
    applied = refl;
    failures = refl;
    halted = refl;
    written = done s;
  }
  write_all-IsClean wait k (r ∷ rs) s h = after_wait-IsClean (r ∷ rs) (wait k) s _ h (λ e.
      after_write-IsClean r rs s (p.set_record domain r s)
        (write_all p text_of domain wait (suc k) rs) refl e (write_all-IsClean wait (suc k) rs))
