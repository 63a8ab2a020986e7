-- ===== src/Record/Errors.antt =====
-- What a fallible call returns: Go's `(value, error)`, where the value is read only without error.
use dns_entree.Base.{Bool, true, false, if◌then◌else◌, ◌≡◌, refl, subst}
use dns_entree.Text.{Bytes}

-- The errors that the program tells apart; the others carry their message's fixed part.
pub data Error : Type 0 where
  other : Bytes → Error
  get_failed : Error → Error
  set_failed : Error → Error
  use_typed_push : Bytes → Error
  unsupported_type : Bytes → Error
  not_observed : Error

pub data Result {ℓ} (A : Type ℓ) : Type ℓ where
  ok : A → Result A
  err : Error → Result A

infixl 5 ◌>>=◌ ◌>>◌
abbrev pub ◌>>=◌ {ℓ κ} : {A : Type ℓ} {B : Type κ} → Result A → (A → Result B) → Result B
ok a >>= f = f a
err e >>= f = err e

abbrev pub ◌>>◌ {ℓ κ} : {A : Type ℓ} {B : Type κ} → Result A → Result B → Result B
m >> k = m >>= λ _. k

-- `if !b { return err }`.
abbrev pub require : Bool → Bytes → Result (Unit {0})
require true what = ok tt
require false what = err (other what)

-- What holds of the value, where there is one.
abbrev pub IfOk {ℓ κ} : {A : Type ℓ} → (A → Type κ) → Result A → Type κ
IfOk Q (ok a) = Q a
IfOk Q (err e) = Unit

pub if_ok {ℓ κ} : {A : Type ℓ} (Q : A → Type κ) (m : Result A) (a : A) → IfOk Q m → m ≡ ok a → Q a
if_ok Q m a h e = subst (IfOk Q) e h

module _ {ℓ κ} {B : Type ℓ} (Q : B → Type κ) where
  pub bind-IfOk {μ} :
      {A : Type μ} (m : Result A) (f : A → Result B) → ((a : A) → IfOk Q (f a)) → IfOk Q (m >>= f)
  bind-IfOk (ok a) f h = h a
  bind-IfOk (err e) f h = tt

  pub next-IfOk {μ ν} :
      {A : Type μ} (P : A → Type ν) (m : Result A) (f : A → Result B)
      → IfOk P m
      → ((a : A) → P a → IfOk Q (f a))
      → IfOk Q (m >>= f)
  next-IfOk P (ok a) f p h = h a p
  next-IfOk P (err e) f p h = tt

  pub require-IfOk :
      (b : Bool) (what : Bytes) (k : Result B)
      → (b ≡ true → IfOk Q k)
      → IfOk Q (require b what >> k)
  require-IfOk true what k h = h refl
  require-IfOk false what k h = tt

  pub if-IfOk :
      (b : Bool) (x y : Result B)
      → (b ≡ true → IfOk Q x)
      → (b ≡ false → IfOk Q y)
      → IfOk Q (if b then x else y)
  if-IfOk true x y f g = f refl
  if-IfOk false x y f g = g refl
