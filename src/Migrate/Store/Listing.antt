-- ===== src/Migrate/Store/Listing.antt =====
-- What `List` shows and what `SweepExpired` leaves.
use dns_entree.Base.{
  ℕ, zero, suc, ◌+◌, ◌≤◌, ◌≡◌, refl, ap, subst, Bool, true, false, ◌&&◌, List, [], ◌∷◌, some, arith,
  Bool-cases, inl, inr, ◌⊎◌, All, All-map, length, take, drop, ltb, leb, if_rule,
}
use dns_entree.Text.{Bytes, str_eq}
use dns_entree.Migrate.Store.{
  Row, Dir, ListFilter, done, read_row, is_expired, is_listed, listed, insert_row, sort_rows, page,
  list, sweep, sweep_expired,
}

module _ {B : Type 0} where
  -- The rows come in the order of their creation.
  abbrev pub IsSorted : List (Row B) → Type 0
  IsSorted [] = Unit
  IsSorted (r ∷ rs) = All (λ s. r.created_at ≤ s.created_at) rs × IsSorted rs

  insert-All :
      (P : Row B → Type 0) (r : Row B) (rs : List (Row B))
      → P r
      → All P rs
      → All P (insert_row r rs)
  unfolding insert_row
  insert-All P r [] h _ = (h, tt)
  insert-All P r (s ∷ rs) h (k, hs) =
      if_rule (All P) (ltb s.created_at r.created_at) (s ∷ insert_row r rs) (r ∷ s ∷ rs)
        (k, insert-All P r rs h hs) (h, (k, hs))

  sort-All : (P : Row B → Type 0) (rs : List (Row B)) → All P rs → All P (sort_rows rs)
  unfolding sort_rows
  sort-All P [] _ = tt
  sort-All P (r ∷ rs) (h, hs) = insert-All P r (sort_rows rs) h (sort-All P rs hs)

  insert-IsSorted : (r : Row B) (rs : List (Row B)) → IsSorted rs → IsSorted (insert_row r rs)
  unfolding insert_row
  insert-IsSorted r [] _ = (tt, tt)
  insert-IsSorted r (s ∷ rs) (h, hs) = elim (Bool-cases (ltb s.created_at r.created_at)) [
    | inl y ↦ rw y (
      insert-All (λ t. s.created_at ≤ t.created_at) r rs (ground arith) h,
      insert-IsSorted r rs hs,
    )
    | inr n ↦
        let first : r.created_at ≤ s.created_at = ground arith in
        rw n ((first, All-map (λ t q. omega (arith, first, q)) rs h), (h, hs))
  ]

  sort-IsSorted : (rs : List (Row B)) → IsSorted (sort_rows rs)
  unfolding sort_rows
  sort-IsSorted [] = tt
  sort-IsSorted (r ∷ rs) = insert-IsSorted r (sort_rows rs) (sort-IsSorted rs)

  listed-All :
      (now : ℕ) (f : ListFilter) (d : Dir B) → All (λ r. is_listed now f r ≡ true) (listed now f d)
  unfolding listed
  listed-All now f [] = tt
  listed-All now f ((k, r) ∷ d) = elim (Bool-cases (is_listed now f r)) [
    | inl y ↦ rw y (y, listed-All now f d)
    | inr n ↦ rw n (listed-All now f d)
  ]

  -- A property of lists that dropping and taking keep, a page keeps.
  drop-All : (P : Row B → Type 0) (n : ℕ) (rs : List (Row B)) → All P rs → All P (drop n rs)
  drop-All P zero rs h = h
  drop-All P (suc n) [] h = tt
  drop-All P (suc n) (r ∷ rs) (_, h) = drop-All P n rs h

  take-All : (P : Row B → Type 0) (n : ℕ) (rs : List (Row B)) → All P rs → All P (take n rs)
  take-All P zero rs h = tt
  take-All P (suc n) [] h = tt
  take-All P (suc n) (r ∷ rs) (p, h) = (p, take-All P n rs h)

  drop-IsSorted : (n : ℕ) (rs : List (Row B)) → IsSorted rs → IsSorted (drop n rs)
  drop-IsSorted zero rs h = h
  drop-IsSorted (suc n) [] h = tt
  drop-IsSorted (suc n) (r ∷ rs) (_, h) = drop-IsSorted n rs h

  take-IsSorted : (n : ℕ) (rs : List (Row B)) → IsSorted rs → IsSorted (take n rs)
  take-IsSorted zero rs h = tt
  take-IsSorted (suc n) [] h = tt
  take-IsSorted (suc n) (r ∷ rs) (p, h) =
      (take-All (λ s. r.created_at ≤ s.created_at) n rs p, take-IsSorted n rs h)

  length-take-le : (n : ℕ) (rs : List (Row B)) → length (take n rs) ≤ n
  length-take-le zero rs = omega arith
  length-take-le (suc n) [] = omega arith
  length-take-le (suc n) (r ∷ rs) = omega (arith, length-take-le n rs)

  -- One page of the rows that the filter admits and that have not expired.
  pub record IsPage (now : ℕ) (f : ListFilter) (d : Dir B) (rows : List (Row B)) : Type 0 where
    pub sorted : IsSorted rows
    pub shown : All (λ r. is_listed now f r ≡ true) rows
    pub bounded : (f.limit ≡ 0) ⊎ (length rows ≤ f.limit)
    pub whole : f.limit ≡ 0 → f.offset ≡ 0 → rows ≡ sort_rows (listed now f d)

  page-IsPage :
      (now : ℕ) (f : ListFilter) (d : Dir B) → IsPage now f d (page f (sort_rows (listed now f d)))
  unfolding page
  page-IsPage now f d = record {
    sorted = if_rule IsSorted beyond [] _ tt (
        if_rule IsSorted cut (take f.limit rest) rest (take-IsSorted f.limit rest rest_sorted)
          rest_sorted);
    shown = if_rule (All shown) beyond [] _ tt (
        if_rule (All shown) cut (take f.limit rest) rest (take-All shown f.limit rest rest_shown)
          rest_shown);
    bounded = ground (arith, length-take-le f.limit rest);
    whole = λ l o. page_whole l o;
  }
    where
      shown : Row B → Type 0
      shown r = is_listed now f r ≡ true

      rows : List (Row B)
      rows = sort_rows (listed now f d)

      rest : List (Row B)
      rest = drop f.offset rows

      page_whole : f.limit ≡ 0 → f.offset ≡ 0 → page f rows ≡ rows
      page_whole l o = rw (o, l) refl

      beyond : Bool
      beyond = ltb 0 f.offset && leb (length rows) f.offset

      cut : Bool
      cut = ltb 0 f.limit && ltb f.limit (length rest)

      rest_sorted : IsSorted rest
      rest_sorted = drop-IsSorted f.offset rows (sort-IsSorted (listed now f d))

      rest_shown : All shown rest
      rest_shown =
          drop-All shown f.offset rows (sort-All shown (listed now f d) (listed-All now f d))

  -- A list that is not refused is sorted by creation, holds only rows that have not expired and match
  -- the filter, is no longer than the limit, and holds all of these rows where no limit or offset is set.
  pub list-IsPage :
      (now : ℕ) (f : ListFilter) (d : Dir B) (rows : List (Row B))
      → list false now f d ≡ done rows
      → IsPage now f d rows
  unfolding list
  list-IsPage now f d rows h = subst (IsPage now f d) (done_inj _ rows h) (page-IsPage now f d)
    where
      done_inj : (a b : List (Row B)) → done a ≡ done b → a ≡ b
      done_inj a b e = cc

  -- Sweeping leaves the row of an id as it is, unless it has expired.
  sweep-kept :
      (before : ℕ) (id : Bytes) (d : Dir B) (r : Row B)
      → read_row id d ≡ some r
      → is_expired before r ≡ false
      → read_row id (sweep before d).1 ≡ some r
  unfolding sweep read_row
  sweep-kept before id [] r h n = h
  sweep-kept before id ((k, s) ∷ d) r h n = elim (Bool-cases (str_eq k id)) [
    | inl y ↦ let same : s ≡ r = ground arith in ground (arith, y, n, ap (is_expired before) same)
    | inr z ↦ ground (arith, z, sweep-kept before id d r (ground arith) n)
  ]

  sweep-fresh :
      (before : ℕ) (d : Dir B) → All (λ p. is_expired before p.1 ≡ false) (sweep before d).1
  unfolding sweep
  sweep-fresh before [] = tt
  sweep-fresh before ((k, r) ∷ d) = elim (Bool-cases (is_expired before r)) [
    | inl y ↦ rw y (sweep-fresh before d)
    | inr n ↦ rw n (n, sweep-fresh before d)
  ]

  sweep-counts :
      (before : ℕ) (d : Dir B) → (sweep before d).0 + length (sweep before d).1 ≡ length d
  unfolding sweep
  sweep-counts before [] = refl
  sweep-counts before ((k, r) ∷ d) = ground (arith, sweep-counts before d)

  pub record IsSwept (before : ℕ) (d : Dir B) (n : ℕ) (e : Dir B) : Type 0 where
    pub counted : n + length e ≡ length d
    pub fresh : All (λ p. is_expired before p.1 ≡ false) e
    pub kept :
        (id : Bytes) (r : Row B)
        → read_row id d ≡ some r
        → is_expired before r ≡ false
        → read_row id e ≡ some r

  -- A sweep leaves no expired row, keeps every other one, and counts those that it deletes.
  pub sweep_expired-IsSwept :
      (before : ℕ) (d e : Dir B) (n : ℕ)
      → sweep_expired false before d ≡ (done n, e)
      → IsSwept before d n e
  unfolding sweep_expired
  sweep_expired-IsSwept before d e n h =
      subst (λ x. IsSwept before d x e) (done_inj (sweep before d).0 n (ap (λ x. x.0) h))
        (subst (IsSwept before d (sweep before d).0) (ap (λ x. x.1) h) (record {
          counted = sweep-counts before d;
          fresh = sweep-fresh before d;
          kept = λ id r. sweep-kept before id d r;
        }))
    where
      done_inj : (a b : ℕ) → done a ≡ done b → a ≡ b
      done_inj a b q = cc
