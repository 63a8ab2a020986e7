-- ===== src/Spf/Surface.antt =====
-- The recursive count against the count of the record alone, and the list of domains that it keeps.
use dns_entree.Base.{
  ℕ, zero, suc, ◌+◌, Bool, true, false, ◌||◌, List, [], ◌∷◌, arith, if◌then◌else◌, ◌≡◌, refl, ◌≤◌,
  Option, none, some, any, find?,
}
use dns_entree.Text.{Bytes, codes, to_lower, str_eq, fields, trim_suffix}
use dns_entree.Record.Errors.{Result, ok, err}
use dns_entree.Spf.Count.{count_words, count_lookups, is_lookup}
use dns_entree.Spf.Recursive.{
  Resolver, Counted, Walk, Mechanism, skip, lookup, follow, mechanism, is_spf, walk_record,
  walk_answer, recurse_into, add_walk, count_word, count_tokens, recursive_count,
}

unfoldable pub weight : Mechanism → ℕ
weight skip = 0
weight lookup = 1
weight (follow t) = 1

-- Both counts take the same words for lookups.
pub mechanism-weight :
    (tok : Bytes) → weight (mechanism tok) ≡ (if is_lookup (to_lower tok) then 1 else 0)
unfolding weight mechanism is_lookup
mechanism-weight tok = ground arith

count_walk-ok :
    (c : Counted) (count : ℕ) (rest : ℕ → List Bytes → Counted) (n : ℕ)
    → (add_walk c (λ sub seen'. rest (count + 1 + sub) seen')).0 ≡ ok n
    → (m : ℕ) × (seen' : List Bytes) × (count + 1 ≤ m) × ((rest m seen').0 ≡ ok n)
unfolding add_walk
count_walk-ok (err e, seen) count rest n h = cc
count_walk-ok (ok sub, seen) count rest n h = (count + 1 + sub, seen, omega arith, h)

count_word-ok :
    (into : Walk) (m : Mechanism) (count : ℕ) (seen : List Bytes) (rest : ℕ → List Bytes → Counted)
    (n : ℕ)
    → (count_word into m count seen rest).0 ≡ ok n
    → (c : ℕ) × (seen' : List Bytes) × (count + weight m ≤ c) × ((rest c seen').0 ≡ ok n)
unfolding count_word weight
count_word-ok into skip count seen rest n h = (count, seen, omega arith, h)
count_word-ok into lookup count seen rest n h = (count + 1, seen, omega arith, h)
count_word-ok into (follow t) count seen rest n h = count_walk-ok (into t seen) count rest n h

pub ok-injective : (a b : ℕ) → ok a ≡ ok b → a ≡ b
ok-injective a b h = cc

count_tokens-le :
    (into : Walk) (toks : List Bytes) (count : ℕ) (seen : List Bytes) (n : ℕ)
    → (count_tokens into toks count seen).0 ≡ ok n
    → count + count_words toks ≤ n
unfolding count_words count_tokens
count_tokens-le into [] count seen n h = omega (arith, ok-injective count n h)
count_tokens-le into (tok ∷ toks) count seen n h =
    let (c, seen', le, h') =
      count_word-ok into (mechanism tok) count seen (count_tokens into toks) n h in
    omega (arith, count_tokens-le into toks c seen' n h', mechanism-weight tok)

-- A recursive count that succeeds is at least the count of the record alone.
pub count_lookups-le-recursive :
    (r : Resolver) (levels : ℕ) (spf : Bytes) (seen : List Bytes) (n : ℕ)
    → (recursive_count r (suc levels) spf seen).0 ≡ ok n
    → count_lookups spf ≤ n
unfolding recursive_count count_lookups
count_lookups-le-recursive r levels spf seen n h =
    omega
      (arith, count_tokens-le (recurse_into r (recursive_count r levels)) (fields spf) 0 seen n h)

-- No domain stands twice in the list.
abbrev pub IsDistinct : List Bytes → Type 0
IsDistinct [] = Unit
IsDistinct (x ∷ xs) = (any (str_eq x) xs ≡ false) × IsDistinct xs

abbrev KeepsDistinct : Walk → Type 0
KeepsDistinct walk =
    (txt : Bytes) (seen : List Bytes) → IsDistinct seen → IsDistinct (walk txt seen).1

walk_answer-IsDistinct :
    (walk : Walk)
    → KeepsDistinct walk
    → (answer : Result (List Bytes)) (seen : List Bytes) → IsDistinct seen
    → IsDistinct (walk_answer walk answer seen).1
unfolding walk_answer
walk_answer-IsDistinct walk k (err e) seen d = d
walk_answer-IsDistinct walk k (ok txts) seen d = go (find? is_spf txts)
  where
    go : (o : Option Bytes) → IsDistinct (walk_record walk o seen).1
    go none = d
    go (some txt) = k txt seen d

recurse_into-distinct :
    (r : Resolver) (walk : Walk) → KeepsDistinct walk → KeepsDistinct (recurse_into r walk)
unfolding recurse_into
recurse_into-distinct r walk k target seen d = go (str_eq t []) (any (str_eq t) seen) refl
  where
    t : Bytes
    t = trim_suffix target (codes ".")

    go :
        (a b : Bool)
        → any (str_eq t) seen ≡ b
        → IsDistinct (if a || b then (ok 0, seen) else walk_answer walk (r t) (t ∷ seen)).1
    go true b e = d
    go false true e = d
    go false false e = walk_answer-IsDistinct walk k (r t) (t ∷ seen) (e, d)

add_walk-IsDistinct :
    (c : Counted) (rest : ℕ → List Bytes → Counted)
    → IsDistinct c.1
    → ((n : ℕ) (seen : List Bytes) → IsDistinct seen → IsDistinct (rest n seen).1)
    → IsDistinct (add_walk c rest).1
unfolding add_walk
add_walk-IsDistinct (err e, seen) rest d k = d
add_walk-IsDistinct (ok sub, seen) rest d k = k sub seen d

count_tokens-IsDistinct :
    (into : Walk)
    → KeepsDistinct into
    → (toks : List Bytes) (count : ℕ) (seen : List Bytes) → IsDistinct seen
    → IsDistinct (count_tokens into toks count seen).1
unfolding count_tokens
count_tokens-IsDistinct into k [] count seen d = d
count_tokens-IsDistinct into k (tok ∷ toks) count seen d =
    go (mechanism tok) (count_tokens-IsDistinct into k toks)
  where
    go :
        (m : Mechanism)
        → ((n : ℕ) (s : List Bytes) → IsDistinct s → IsDistinct (count_tokens into toks n s).1)
        → IsDistinct (count_word into m count seen (count_tokens into toks)).1
    go skip ih = ih count seen d
    go lookup ih = ih (count + 1) seen d
    go (follow t) ih =
        add_walk-IsDistinct (into t seen) _ (k t seen d) (λ sub s. ih (count + 1 + sub) s)

-- The list that the walk keeps holds no domain twice, whatever the answers, and whether or not a
-- lookup fails.
pub recursive_count-IsDistinct :
    (r : Resolver) (levels : ℕ) (spf : Bytes) (seen : List Bytes)
    → IsDistinct seen
    → IsDistinct (recursive_count r levels spf seen).1
unfolding recursive_count
recursive_count-IsDistinct r zero spf seen d = d
recursive_count-IsDistinct r (suc levels) spf seen d =
    count_tokens-IsDistinct (recurse_into r (recursive_count r levels))
      (recurse_into-distinct r (recursive_count r levels) (recursive_count-IsDistinct r levels))
      (fields spf) 0 seen d
