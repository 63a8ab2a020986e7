-- ===== src/Push/Fake.antt =====
-- internal/fakeprovider/fakeprovider.go: the in-memory provider, and that it is lawful.
use dns_entree.Base.{List, [], ◌∷◌, some, if◌then◌else◌, ◌≡◌, refl, arith}
use dns_entree.Text.{Bytes, str_eq, str_eq_refl}
use dns_entree.Record.{Record, Provider}
use dns_entree.Record.Errors.{ok}
use dns_entree.Push.Steps.{find_record}
use dns_entree.Push.Laws.{IsLawful}

-- `map[string][]entree.Record`, keyed by record type.
abbrev pub Store : Type 0
Store = List (Bytes × List Record)

unfoldable pub lookup : Bytes → Store → List Record
lookup t [] = []
lookup t ((k, rs) ∷ m) = if str_eq k t then rs else lookup t m

unfoldable pub insert : Bytes → List Record → Store → Store
insert t rs [] = (t, rs) ∷ []
insert t rs ((k, old) ∷ m) = if str_eq k t then (k, rs) ∷ m else (k, old) ∷ insert t rs m

-- The loop of `SetRecord`: the first record of that name is overwritten, else the record is appended.
unfoldable pub upsert : Record → List Record → List Record
upsert r [] = r ∷ []
upsert r (x ∷ xs) = if str_eq x.name r.name then r ∷ xs else x ∷ upsert r xs

unfoldable pub set_record : Record → Store → Store
unfolding lookup insert upsert
set_record r m = insert r.typ (upsert r (lookup r.typ m)) m

-- `ApplyRecords`, which drops the errors.
unfoldable pub apply_records : List Record → Store → Store
unfolding set_record
apply_records [] m = m
apply_records (r ∷ rs) m = apply_records rs (set_record r m)

abbrev pub fake : Provider Store
fake = record {
  get_records = λ domain t m. (ok (lookup t m), m);
  set_record = λ domain r m. (ok tt, set_record r m);
  delete_record = λ domain id m. (ok tt, m);
}

find_record-upsert : (r : Record) (xs : List Record) → find_record (upsert r xs) r.name ≡ some r
unfolding find_record upsert
find_record-upsert r [] = rw str_eq_refl
find_record-upsert r (x ∷ xs) = ground (arith, find_record-upsert r xs, str_eq_refl r.name)

pub lookup-insert_self : (t : Bytes) (rs : List Record) (m : Store) → lookup t (insert t rs m) ≡ rs
unfolding lookup insert
lookup-insert_self t rs [] = rw str_eq_refl
lookup-insert_self t rs ((k, old) ∷ m) = ground (arith, lookup-insert_self t rs m)

pub fake_stored :
    (r : Record) (m : Store)
    → (r' : Record) × (find_record (lookup r.typ (set_record r m)) r.name ≡ some r')
      × (r'.content ≡ r.content)
      × (r'.priority ≡ r.priority)
unfolding set_record
fake_stored r m = (
  r,
  rw (lookup-insert_self r.typ (upsert r (lookup r.typ m)) m)
      (find_record-upsert r (lookup r.typ m)),
  refl,
  refl,
)

-- The fake provider meets what the pushes rely on.
abbrev pub fake_lawful : IsLawful fake
fake_lawful = record {
  view = λ domain t m. lookup t m;
  reads = λ domain t m. refl;
  stored = λ domain r m done. fake_stored r m;
}
