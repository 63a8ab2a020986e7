-- ===== src/Template/Step/Balance.antt =====
-- The loop's account: what is in the zone, was added or was deleted, key by key.
use dns_entree.Base.{◌+◌, ◌≤◌, ◌≡◌, List, arith}
use dns_entree.Text.{Bytes}
use dns_entree.Record.{Record}
use dns_entree.Template.Types.{Entry}
use dns_entree.Template.Substitute.{Vars}
use dns_entree.Template.Keys.Counts.{count, count-append, count-remove_records}
use dns_entree.Template.Step.Keeps.{apply_entries-keeps}
use dns_entree.Template.Step.{Plan, delete, add, apply_entries}

-- From a zone: what stands in it now and what was deleted is what stood in it and what was added.
pub record IsBalanced (start : List Record) (s : Plan) : Type 0 where
  pub balance :
      (k : Bytes) → count k s.zone + count k s.to_delete ≡ count k start + count k s.to_add

module _ {start : List Record} where
  pub delete-IsBalanced :
      (dels : List Record) (s : Plan)
      → ((k : Bytes) → count k dels ≤ count k s.zone)
      → IsBalanced start s
      → IsBalanced start (delete dels s)
  unfolding delete
  delete-IsBalanced dels s f b = record {
    balance = λ k.
        omega (
          arith,
          b.balance k,
          count-remove_records s.zone dels f k,
          count-append k s.to_delete dels,
        );
  }

  add-IsBalanced :
      (recs : List Record) (s : Plan) → IsBalanced start s → IsBalanced start (add recs s)
  unfolding add
  add-IsBalanced recs s b = record {
    balance =
        λ k. omega (arith, b.balance k, count-append k s.zone recs, count-append k s.to_add recs);
  }

  -- Whatever the entries of a template are, and whatever they delete, the account stays balanced.
  pub apply_entries-IsBalanced :
      (vars : Vars) (original : List Bytes) (es : List Entry) (s : Plan)
      → IsBalanced start s
      → IsBalanced start (apply_entries vars original es s)
  apply_entries-IsBalanced = apply_entries-keeps (IsBalanced start) delete-IsBalanced add-IsBalanced

-- What was deleted stays deleted while the loop runs.
pub apply_entries-deleted :
    (vars : Vars) (original : List Bytes) (es : List Entry) (s : Plan) (k : Bytes)
    → count k s.to_delete ≤ count k (apply_entries vars original es s).to_delete
apply_entries-deleted vars original es s k =
    apply_entries-keeps (λ t. count k s.to_delete ≤ count k t.to_delete)
      (λ dels t f h. unfold delete in omega (arith, h, count-append k t.to_delete dels))
      (λ recs t h. unfold add in h) vars original es s (omega arith)
