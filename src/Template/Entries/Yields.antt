-- ===== src/Template/Entries/Yields.antt =====
-- What holds of the entries of a result, through the checks and steps that come before it.
use dns_entree.Base.{◌≡◌, refl, subst, Bool, true, false, List, if◌then◌else◌, All}
use dns_entree.Template.Types.{Entry, ProcessError, Processed, good, bad, ◌>>=◌, ◌>>◌, refuse_if}

-- Where there is a result, all of its entries have the property.
pub record Yields (Q : Entry → Type 0) (m : Processed (List Entry)) : Type 0 where
  pub entries : (es : List Entry) → m ≡ good es → All Q es

module _ (Q : Entry → Type 0) where
  pub good-Yields : (es : List Entry) → All Q es → Yields Q (good es)
  good-Yields es h = record { entries = λ fs e. subst (All Q) (same fs e) h }
    where
      same : (fs : List Entry) → good es ≡ good fs → es ≡ fs
      same fs e = cc

  bad-Yields : (e : ProcessError) → Yields Q (bad e)
  bad-Yields e = record { entries = λ fs h. never fs h }
    where
      never : (fs : List Entry) → bad e ≡ good fs → All Q fs
      never fs h = cc

  pub refused-Yields :
      (t : Bool) (e : ProcessError) (k : Processed (List Entry))
      → (t ≡ false → Yields Q k)
      → Yields Q (refuse_if t e >> k)
  refused-Yields true e k y = bad-Yields e
  refused-Yields false e k y = y refl

  pub bind-Yields :
      {A : Type 0} (m : Processed A) (f : A → Processed (List Entry))
      → ((a : A) → Yields Q (f a))
      → Yields Q (m >>= f)
  bind-Yields (good a) f y = y a
  bind-Yields (bad e) f y = bad-Yields e

  pub if-Yields :
      (b : Bool) (x y : Processed (List Entry))
      → (b ≡ true → Yields Q x)
      → (b ≡ false → Yields Q y)
      → Yields Q (if b then x else y)
  if-Yields true x y f g = f refl
  if-Yields false x y f g = g refl
