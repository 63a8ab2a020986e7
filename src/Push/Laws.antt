-- ===== src/Push/Laws.antt =====
-- What a push relies on: a provider shows its records, and a record that was set is the first one
-- of its type and name.
use dns_entree.Base.{List, some, ◌≡◌}
use dns_entree.Text.{Bytes}
use dns_entree.Record.{Record, Provider}
use dns_entree.Record.Errors.{ok}
use dns_entree.Push.Steps.{find_record}

pub record IsLawful {S : Type 0} (p : Provider S) : Type 0 where
  -- The records of a domain and a type.
  pub view : Bytes → Bytes → S → List Record
  pub reads : (domain t : Bytes) (s : S) → p.get_records domain t s ≡ (ok (view domain t s), s)
  pub stored :
      (domain : Bytes) (r : Record) (s : S)
      → (p.set_record domain r s).0 ≡ ok tt
      → (r' : Record) × (find_record (view domain r.typ (p.set_record domain r s).1) r.name
          ≡ some r')
        × (r'.content ≡ r.content)
        × (r'.priority ≡ r.priority)
