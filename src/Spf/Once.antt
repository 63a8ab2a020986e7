-- ===== src/Spf/Once.antt =====
-- The recursive count of spf.go against the records of the domains that it looks up.
use dns_entree.Base.{
  ℕ, zero, suc, ◌+◌, ◌≤◌, Bool, true, false, ◌||◌, List, [], ◌∷◌, arith, if◌then◌else◌, ◌≡◌, refl,
  Option, none, some, any, find?,
}
use dns_entree.Text.{Bytes, codes, str_eq, fields, trim_suffix}
use dns_entree.Record.Errors.{Result, ok, err}
use dns_entree.Spf.Count.{count_words, count_lookups}
use dns_entree.Spf.Recursive.{
  Resolver, Counted, Walk, Mechanism, skip, lookup, follow, mechanism, is_spf, walk_record,
  walk_answer, recurse_into, add_walk, count_word, count_tokens, recursive_count,
}
use dns_entree.Spf.Surface.{
  weight, mechanism-weight, ok-injective, IsDistinct, recursive_count-IsDistinct,
}

abbrev lookups_of : Option Bytes → ℕ
lookups_of none = 0
lookups_of (some txt) = count_lookups txt

abbrev lookups_in : Result (List Bytes) → ℕ
lookups_in (err e) = 0
lookups_in (ok txts) = lookups_of (find? is_spf txts)

-- The lookups that the SPF records of the domains ask for by themselves.
abbrev pub lookups_at : Resolver → List Bytes → ℕ
lookups_at r [] = 0
lookups_at r (t ∷ ts) = lookups_in (r t) + lookups_at r ts

module _ (r : Resolver) where
  -- What a walk adds is paid for by the domains that it adds to the list.
  abbrev IsPaid : ℕ → List Bytes → Counted → Type 0
  IsPaid own seen c = (n : ℕ) → c.0 ≡ ok n → n + lookups_at r seen ≤ own + lookups_at r c.1

  abbrev Pays : Walk → Type 0
  Pays walk = (txt : Bytes) (seen : List Bytes) → IsPaid (count_lookups txt) seen (walk txt seen)

  walk_record-IsPaid :
      (walk : Walk)
      → Pays walk
      → (o : Option Bytes) (seen : List Bytes)
      → IsPaid (lookups_of o) seen (walk_record walk o seen)
  unfolding walk_record
  walk_record-IsPaid walk p none seen n h = omega (arith, ok-injective 0 n h)
  walk_record-IsPaid walk p (some txt) seen n h = p txt seen n h

  walk_answer-IsPaid :
      (walk : Walk)
      → Pays walk
      → (a : Result (List Bytes)) (seen : List Bytes)
      → IsPaid (lookups_in a) seen (walk_answer walk a seen)
  unfolding walk_answer
  walk_answer-IsPaid walk p (err e) seen n h = cc
  walk_answer-IsPaid walk p (ok txts) seen n h =
      walk_record-IsPaid walk p (find? is_spf txts) seen n h

  recurse_into-IsPaid :
      (walk : Walk)
      → Pays walk
      → (target : Bytes) (seen : List Bytes) → IsPaid 0 seen (recurse_into r walk target seen)
  unfolding recurse_into
  recurse_into-IsPaid walk p target seen = go (str_eq t [] || any (str_eq t) seen)
    where
      t : Bytes
      t = trim_suffix target (codes ".")

      go :
          (b : Bool) → IsPaid 0 seen (if b then (ok 0, seen) else walk_answer walk (r t) (t ∷ seen))
      go true n h = omega (arith, ok-injective 0 n h)
      go false n h = omega (arith, walk_answer-IsPaid walk p (r t) (t ∷ seen) n h)

  module _ (into : Walk)
      (paid : (target : Bytes) (seen : List Bytes) → IsPaid 0 seen (into target seen)) where
    count_word-IsPaid :
        (m : Mechanism) (count : ℕ) (seen : List Bytes) (own : ℕ) (rest : ℕ → List Bytes → Counted)
        → ((c : ℕ) (s : List Bytes) → IsPaid (c + own) s (rest c s))
        → IsPaid (count + (weight m + own)) seen (count_word into m count seen rest)
    unfolding count_word weight
    count_word-IsPaid skip count seen own rest k n h = omega (arith, k count seen n h)
    count_word-IsPaid lookup count seen own rest k n h = omega (arith, k (count + 1) seen n h)
    count_word-IsPaid (follow t) count seen own rest k n h = go (into t seen) (paid t seen) n h
      where
        go :
            (c : Counted)
            → IsPaid 0 seen c
            → IsPaid (count + (1 + own)) seen (add_walk c (λ sub s. rest (count + 1 + sub) s))
        go (err e, s) p n h = cc
        go (ok sub, s) p n h = omega (arith, p sub refl, k (count + 1 + sub) s n h)

    count_tokens-IsPaid :
        (toks : List Bytes) (count : ℕ) (seen : List Bytes)
        → IsPaid (count + count_words toks) seen (count_tokens into toks count seen)
    unfolding count_tokens count_words
    count_tokens-IsPaid [] count seen n h = omega (arith, ok-injective count n h)
    count_tokens-IsPaid (tok ∷ toks) count seen n h = omega (
      arith,
      mechanism-weight tok,
      count_word-IsPaid (mechanism tok) count seen (count_words toks) (count_tokens into toks)
          (count_tokens-IsPaid toks) n h,
    )

  recursive_count-IsPaid : (levels : ℕ) → Pays (recursive_count r levels)
  unfolding recursive_count count_lookups
  recursive_count-IsPaid zero spf seen n h = omega (arith, ok-injective 0 n h)
  recursive_count-IsPaid (suc levels) spf seen n h = omega (
    arith,
    count_tokens-IsPaid (recurse_into r (recursive_count r levels))
        (recurse_into-IsPaid (recursive_count r levels) (recursive_count-IsPaid levels))
        (fields spf) 0 seen n h,
  )

-- A recursive count that starts with no domain seen, and succeeds, gives a list of distinct domains,
-- and is at most the count of the record alone together with the counts of the SPF records that stand
-- at the domains of that list, each taken once, whatever the answers are and however the records
-- include each other.
pub recursive_count-once :
    (r : Resolver) (levels : ℕ) (spf : Bytes) (n : ℕ)
    → (recursive_count r levels spf []).0 ≡ ok n
    → IsDistinct (recursive_count r levels spf []).1
      × (n ≤ count_lookups spf + lookups_at r (recursive_count r levels spf []).1)
recursive_count-once r levels spf n h = (
  recursive_count-IsDistinct r levels spf [] tt,
  omega (arith, recursive_count-IsPaid r levels spf [] n h),
)
