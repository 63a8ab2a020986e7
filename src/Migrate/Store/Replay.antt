-- ===== src/Migrate/Store/Replay.antt =====
-- The store read as a map from ids to rows: what clients see over any sequence of calls.
use dns_entree.Base.{◌≡◌, List, [], ◌∷◌}
use dns_entree.Migrate.Store.{Dir, Answer, read_row, create, get, update, delete}
use dns_entree.Migrate.Store.Served.{
  Call, create_call, update_call, get_call, delete_call, Reply, wrote, got, RowMap, Served,
}

module _ {B : Type 0} where
  -- One call on the store.
  abbrev wrote_to : Answer (Unit {0}) × Dir B → Reply B × Dir B
  wrote_to (a, d) = (wrote a, d)

  abbrev pub call : Call B → Dir B → Reply B × Dir B
  call (create_call c now m) d = wrote_to (create c now m d)
  call (update_call c now m) d = wrote_to (update c now m d)
  call (get_call c now id) d = (got (get c now id d), d)
  call (delete_call c id) d = wrote_to (delete c id d)

  abbrev pub run : List (Call B) → Dir B → List (Reply B) × Dir B
  run [] d = ([], d)
  run (c ∷ cs) d = let (r, e) = call c d in let (rs, f) = run cs e in (r ∷ rs, f)

  -- The map that a directory is read as.
  abbrev pub rows_of : Dir B → RowMap B
  rows_of d id = read_row id d

  -- The calls are served one after the other.
  abbrev pub AllServed : List (Call B) → RowMap B → List (Reply B) → RowMap B → Type 0
  AllServed [] f [] g = f ≡ g
  AllServed [] f (r ∷ rs) g = ⊥
  AllServed (c ∷ cs) f [] g = ⊥
  AllServed (c ∷ cs) f (r ∷ rs) g = (h : RowMap B) × Served f c r h × AllServed cs h rs g

  abbrev ServedBy : Dir B → Call B → Reply B × Dir B → Type 0
  ServedBy d c (r, e) = Served (rows_of d) c r (rows_of e)
