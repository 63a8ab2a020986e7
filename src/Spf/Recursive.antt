-- ===== src/Spf/Recursive.antt =====
-- `recursiveSPFLookupCount` and `recurseInto`: the count with the records of the included domains.
use dns_entree.Base.{
  ℕ, zero, suc, ◌+◌, Bool, ◌||◌, List, [], ◌∷◌, if◌then◌else◌, Option, none, some, any, ◌==◌, find?,
}
use dns_entree.Text.{
  Bytes, codes, to_lower, has_prefix, str_eq, fields, trim_space, trim_prefix, trim_suffix,
}
use dns_entree.Record.Errors.{Result, ok, err}

-- `LookupTXT`, as the answers that the walk is given.
abbrev pub Resolver : Type 0
Resolver = Bytes → Result (List Bytes)

-- The count, and the domains that were looked up.
abbrev pub Counted : Type 0
Counted = Result ℕ × List Bytes

pub data Mechanism : Type 0 where
  skip lookup : Mechanism
  follow : Bytes → Mechanism

abbrev pub is_qualifier : ℕ → Bool
is_qualifier c = c == b'+' || (c == b'-' || (c == b'~' || c == b'?'))

unfoldable pub strip_qualifier : Bytes → Bytes
strip_qualifier [] = []
strip_qualifier (c ∷ mech) = if is_qualifier c then mech else c ∷ mech

unfoldable pub mechanism : Bytes → Mechanism
unfolding strip_qualifier
mechanism tok =
    let low = to_lower tok in
    if str_eq low (codes "a") || str_eq low (codes "mx")
    then lookup
    else if has_prefix low (codes "a:")
        || (has_prefix low (codes "mx:")
            || (has_prefix low (codes "ptr:") || has_prefix low (codes "exists:")))
    then lookup
    else if has_prefix low (codes "include:")
    then follow (strip_qualifier (trim_prefix tok (codes "include:")))
    else if has_prefix low (codes "redirect=")
    then follow (trim_prefix tok (codes "redirect="))
    else skip

-- The first TXT value that is an SPF record.
unfoldable pub is_spf : Bytes → Bool
is_spf txt = has_prefix (to_lower (trim_space txt)) (codes "v=spf1")

unfoldable pub walk_record : (Bytes → List Bytes → Counted) → Option Bytes → List Bytes → Counted
walk_record walk none seen = (ok 0, seen)
walk_record walk (some txt) seen = walk txt seen

unfoldable pub walk_answer :
    (Bytes → List Bytes → Counted) → Result (List Bytes) → List Bytes → Counted
unfolding walk_record is_spf
walk_answer walk (err e) seen = (err e, seen)
walk_answer walk (ok txts) seen = walk_record walk (find? is_spf txts) seen

unfoldable pub recurse_into :
    Resolver → (Bytes → List Bytes → Counted) → Bytes → List Bytes → Counted
unfolding walk_answer
recurse_into r walk target seen =
    let t = trim_suffix target (codes ".") in
    if str_eq t [] || any (str_eq t) seen then (ok 0, seen) else walk_answer walk (r t) (t ∷ seen)

abbrev pub Walk : Type 0
Walk = Bytes → List Bytes → Counted

-- What follows a walk into a target; a failed walk ends the count.
unfoldable pub add_walk : Counted → (ℕ → List Bytes → Counted) → Counted
add_walk (err e, seen) rest = (err e, seen)
add_walk (ok sub, seen) rest = rest sub seen

-- One word; `rest` counts the words after it.
unfoldable pub count_word : Walk → Mechanism → ℕ → List Bytes → (ℕ → List Bytes → Counted) → Counted
unfolding add_walk
count_word into skip count seen rest = rest count seen
count_word into lookup count seen rest = rest (count + 1) seen
count_word into (follow t) count seen rest =
    add_walk (into t seen) (λ sub seen'. rest (count + 1 + sub) seen')

unfoldable pub count_tokens : Walk → List Bytes → ℕ → List Bytes → Counted
unfolding mechanism count_word
count_tokens into [] count seen = (ok count, seen)
count_tokens into (tok ∷ toks) count seen =
    count_word into (mechanism tok) count seen (count_tokens into toks)

-- `depth` goes from 0 to 10: eleven levels are read, and the twelfth counts nothing.
abbrev pub max_levels : ℕ
max_levels = 11

unfoldable pub recursive_count : Resolver → ℕ → Bytes → List Bytes → Counted
unfolding recurse_into count_tokens
recursive_count r zero spf seen = (ok 0, seen)
recursive_count r (suc levels) spf seen =
    count_tokens (recurse_into r (recursive_count r levels)) (fields spf) 0 seen
