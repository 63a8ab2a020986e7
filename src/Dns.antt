-- ===== src/Dns.antt =====
-- Answers of name servers as the program reads them, in verify.go and migrate/convert.go: the
-- header of a resource record, and the fields of its type. An address stands as its text.
use dns_entree.Base.{ℕ, Option, List}
use dns_entree.Text.{Bytes}

pub data Rdata : Type 0 where
  soa dnskey ds other : Rdata
  a aaaa cname ns : Bytes → Rdata
  txt : List Bytes → Rdata
  mx : (preference : ℕ) → Bytes → Rdata
  srv : (priority weight port : ℕ) → Bytes → Rdata
  caa : (flag : ℕ) → (tag value : Bytes) → Rdata
  tlsa : (usage selector matching : ℕ) → Bytes → Rdata
  sshfp : (algorithm kind : ℕ) → Bytes → Rdata

pub record Rr : Type 0 where
  pub name : Bytes
  pub rrtype : ℕ
  pub ttl : ℕ
  pub body : Rdata

-- `[]dns.RR`, whose elements may be nil.
abbrev pub Answers : Type 0
Answers = List (Option Rr)

-- The codes of the types, as the package names them.
abbrev pub type_a : ℕ
type_a = 1

abbrev pub type_ns : ℕ
type_ns = 2

abbrev pub type_cname : ℕ
type_cname = 5

abbrev pub type_soa : ℕ
type_soa = 6

abbrev pub type_mx : ℕ
type_mx = 15

abbrev pub type_txt : ℕ
type_txt = 16

abbrev pub type_aaaa : ℕ
type_aaaa = 28

abbrev pub type_srv : ℕ
type_srv = 33

abbrev pub type_caa : ℕ
type_caa = 257

abbrev pub type_tlsa : ℕ
type_tlsa = 52

abbrev pub type_sshfp : ℕ
type_sshfp = 44
