-- ===== src/Template/Process/Account.antt =====
-- The account of a whole request: the zone that it finds, what it adds and what it deletes.
use dns_entree.Base.{
  ◌+◌, ◌≤◌, ◌≡◌, refl, ◌∙◌, Bool, true, List, [], ◌∷◌, ◌++◌, map, Option, none, some, arith, select,
  if_rule,
}
use dns_entree.Text.{Bytes}
use dns_entree.Record.{Record, Instance}
use dns_entree.Template.Types.{Entry}
use dns_entree.Template.Keys.{record_key, remove_records, normalize_record, deduplicate}
use dns_entree.Template.Keys.Counts.{count, count-append, count-remove_records, count-select-le}
use dns_entree.Template.Keys.Dedup.{once, count-deduplicate}
use dns_entree.Template.Step.{Plan, delete, apply_entries}
use dns_entree.Template.Step.Balance.{
  IsBalanced, delete-IsBalanced, apply_entries-IsBalanced, apply_entries-deleted,
}
use dns_entree.Template.Process.{
  ProcessOpts, ProcessResult, all_vars, is_owned, is_candidate, start_plan, candidates, stamp,
  finish, any_clash, restore_all, restore, plan_of,
}

-- Records that were deleted come back into the zone.
restore_all-IsBalanced :
    (start kept : List Record) (s : Plan)
    → ((k : Bytes) → count k kept ≤ count k s.to_delete)
    → IsBalanced start s
    → IsBalanced start (restore_all kept s)
unfolding restore_all
restore_all-IsBalanced start [] s f b = b
restore_all-IsBalanced start (r ∷ rs) s f b =
    restore_all-IsBalanced start rs
      (record s { zone = s.zone ++ (r ∷ []); to_delete = remove_records s.to_delete (r ∷ []) })
      (λ k. omega (arith, f k, taken k))
      (record {
        balance = λ k. omega (arith, b.balance k, taken k, count-append k s.zone (r ∷ []));
      })
  where
    taken :
        (k : Bytes)
        → count k (remove_records s.to_delete (r ∷ [])) + count k (r ∷ []) ≡ count k s.to_delete
    taken = count-remove_records s.to_delete (r ∷ []) (λ k. omega (arith, f k))

candidate-owned :
    (o : ProcessOpts) (uid : Bytes) (i : Option Instance)
    → is_candidate o uid i ≡ true
    → is_owned o uid i ≡ true
unfolding is_candidate is_owned
candidate-owned o uid none h = cc
candidate-owned o uid (some i) h = ground arith

count-select-weaker :
    (p q : Record → Bool)
    → ((r : Record) → p r ≡ true → q r ≡ true)
    → (k : Bytes) (rs : List Record) → count k (select p rs) ≤ count k (select q rs)
count-select-weaker p q w k [] = omega arith
count-select-weaker p q w k (r ∷ rs) = ground (arith, count-select-weaker p q w k rs, w r)

start_plan-IsBalanced :
    (o : ProcessOpts) (uid : Bytes) (zone : List Record) → IsBalanced zone (start_plan o uid zone)
unfolding start_plan
start_plan-IsBalanced o uid zone =
    if_rule (IsBalanced zone) o.multi_aware _ _
      (delete-IsBalanced (select (λ r. is_owned o uid r.dc) zone) untouched
        (λ k. count-select-le (λ r. is_owned o uid r.dc) k zone) fresh)
      fresh
  where
    untouched : Plan
    untouched = record { zone = zone; to_add = []; to_delete = [] }

    fresh : IsBalanced zone untouched
    fresh = record { balance = λ k. refl }

candidates-deleted :
    (o : ProcessOpts) (uid : Bytes) (zone : List Record) (k : Bytes)
    → count k (candidates o uid zone) ≤ count k (start_plan o uid zone).to_delete
unfolding candidates start_plan delete
candidates-deleted o uid zone k = ground (
  arith,
  count-select-weaker (λ r. is_candidate o uid r.dc) (λ r. is_owned o uid r.dc)
      (λ r. candidate-owned o uid r.dc) k zone,
)

-- For every key of a record: how often it stands in the zone before the request, and was added on the
-- way, is how often it stands in the zone after it, and was deleted on the way. This covers the
-- records of earlier runs that a multi-aware request deletes first, and those that it restores.
pub plan_of-IsBalanced :
    (o : ProcessOpts) (uid : Bytes) (es : List Entry)
    → IsBalanced (map normalize_record o.zone_records) (plan_of o uid es)
unfolding plan_of restore
plan_of-IsBalanced o uid es =
    if_rule (IsBalanced zone) (any_clash (candidates o uid zone) done.to_add) _ _ b (
      restore_all-IsBalanced zone (candidates o uid zone) done
        (λ k. omega (
          arith,
          candidates-deleted o uid zone k,
          apply_entries-deleted (all_vars o) (map record_key s.zone) es s k,
        ))
        b)
  where
    zone : List Record
    zone = map normalize_record o.zone_records

    s : Plan
    s = start_plan o uid zone

    done : Plan
    done = apply_entries (all_vars o) (map record_key s.zone) es s

    b : IsBalanced zone done
    b =
        apply_entries-IsBalanced (all_vars o) (map record_key s.zone) es s
          (start_plan-IsBalanced o uid zone)

count-stamp :
    (o : ProcessOpts) (uid : Bytes) (es : List Entry) (k : Bytes) (rs : List Record)
    → count k (map (stamp o uid es) rs) ≡ count k rs
unfolding stamp record_key
count-stamp o uid es k [] = refl
count-stamp o uid es k (r ∷ rs) = omega (arith, count-stamp o uid es k rs)

-- What the caller gets of a plan: of the records with a key that were added or deleted, one.
pub record IsReport (s : Plan) (r : ProcessResult) : Type 0 where
  pub adds : (k : Bytes) → count k r.to_add ≡ once (count k s.to_add)
  pub deletes : (k : Bytes) → count k r.to_delete ≡ once (count k s.to_delete)

pub finish-IsReport :
    (o : ProcessOpts) (uid : Bytes) (es : List Entry) (s : Plan) → IsReport s (finish o uid es s)
unfolding finish
finish-IsReport o uid es s = record {
  adds = λ k.
      if_rule (λ rs. count k rs ≡ once (count k s.to_add)) o.multi_aware _ _
        (count-stamp o uid es k (deduplicate s.to_add) ∙ count-deduplicate k s.to_add)
        (count-deduplicate k s.to_add);
  deletes = λ k. count-deduplicate k s.to_delete;
}
