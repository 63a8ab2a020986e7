-- ===== src/Record.antt =====
-- entree.go: the record, and provider.go: what a provider offers, as operations on a state.
pub mod Errors
use dns_entree.Base.{ℕ, ℤ, Bool, true, false, List, [], ◌∷◌, Option, none, some, ◌≡◌, arith}
use dns_entree.Text.{Bytes, codes, str_eq}
use Errors.{Result}

-- The `_dc` metadata: the keys that the program writes and reads. A value that is not a text reads
-- as the empty text.
pub record Instance : Type 0 where
  pub id : Bytes
  pub provider_id : Bytes
  pub service_id : Bytes
  pub host : Bytes
  pub essential : Bytes

pub record Record : Type 0 where
  pub id : Bytes
  pub typ : Bytes
  pub name : Bytes
  pub content : Bytes
  pub ttl : ℤ
  pub priority : ℤ
  pub weight : ℤ
  pub port : ℤ
  pub service : Bytes
  pub protocol : Bytes
  pub dc : Option Instance

-- `Record{Type: t, Name: n, Content: c, TTL: ttl}`: the other fields are zero.
abbrev pub plain : Bytes → Bytes → Bytes → ℤ → Record
plain t n c seconds = record {
  id = [];
  typ = t;
  name = n;
  content = c;
  ttl = seconds;
  priority = ℤ.pos 0;
  weight = ℤ.pos 0;
  port = ℤ.pos 0;
  service = [];
  protocol = [];
  dc = none;
}

-- The calls that the push service and the template engine make. Each may change the state of the
-- provider and may fail.
pub record Provider (S : Type 0) : Type 0 where
  pub get_records : Bytes → Bytes → S → Result (List Record) × S
  pub set_record : Bytes → Record → S → Result (Unit {0}) × S
  pub delete_record : Bytes → Bytes → S → Result (Unit {0}) × S
