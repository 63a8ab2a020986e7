-- ===== src/Template/Types.antt =====
-- template.go and process.go: the records of a template, its errors, and `flexInt`.
use dns_entree.Base.{ℤ, Bool, true, false}
use dns_entree.Text.{Bytes}
use dns_entree.Record.{Record}

-- A number, or a `%variable%` that is put in later; `raw` is empty unless it holds one.
pub record FlexInt : Type 0 where
  pub value : ℤ
  pub raw : Bytes

pub record TemplateRecord : Type 0 where
  pub typ : Bytes
  pub host : Bytes
  pub points_to : Bytes
  pub target : Bytes
  pub text : Bytes
  pub ttl : FlexInt
  pub group_id : Bytes
  pub essential : Bytes
  pub conflict_mode : Bytes
  pub conflict_prefix : Bytes
  pub priority : FlexInt
  pub weight : FlexInt
  pub port : FlexInt
  pub service : Bytes
  pub protocol : Bytes

-- The error types of the Domain Connect specification; of the message only a missing variable's
-- name is kept.
pub data ProcessError : Type 0 where
  invalid_data invalid_template type_error bad_signature : ProcessError
  missing_parameter : Bytes → ProcessError

pub data Processed {ℓ} (A : Type ℓ) : Type ℓ where
  good : A → Processed A
  bad : ProcessError → Processed A

infixl 5 ◌>>=◌ ◌>>◌
abbrev pub ◌>>=◌ {ℓ κ} : {A : Type ℓ} {B : Type κ} → Processed A → (A → Processed B) → Processed B
good a >>= f = f a
bad e >>= f = bad e

abbrev pub ◌>>◌ {ℓ κ} : {A : Type ℓ} {B : Type κ} → Processed A → Processed B → Processed B
m >> k = m >>= λ _. k

-- `if bad { return nil, err }`.
abbrev pub refuse_if : Bool → ProcessError → Processed (Unit {0})
refuse_if true e = bad e
refuse_if false e = good tt

-- `resolvedEntry`.
pub record Entry : Type 0 where
  pub rec : Record
  pub template : TemplateRecord
  pub is_backing : Bool
