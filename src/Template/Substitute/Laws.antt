-- ===== src/Template/Substitute/Laws.antt =====
-- The tokens spell the text, and what substitution puts in their place.
use dns_entree.Base.{
  ℕ, ◌≡◌, refl, sym, ap, List, [], ◌∷◌, ◌++◌, arith, append_assoc, append-nil, Option, none, some,
  true, false, All, if_rule_by, subst, ◌∙◌, ◌==◌, All-append,
}
use dns_entree.Text.{Bytes}
use dns_entree.Template.Types.{Processed, good, bad, ◌>>=◌}
use dns_entree.Template.Substitute.{Vars, value_of, expand_var, expand, process_substitute}
use dns_entree.Template.Substitute.Tokens.{
  Piece, byte, var, percent, literal, Place, outside, behind, scan, pieces, is_var_byte,
}
use dns_entree.Template.Substitute.Reads.{
  IsVarByte, IsName, Opens, IsValue, prefixed, Substituted, var_byte, no_var_byte, no_percent,
  heads, unclosed, stopped, names, byte-Opens, value_of-IsValue, ended, plain, valued, missing,
}

-- The text of a token.
abbrev pub spell : Piece → Bytes
spell (byte c) = c ∷ []
spell (var name) = percent ∷ (name ++ percent ∷ [])

abbrev pub render : List Piece → Bytes
render [] = []
render (p ∷ ps) = spell p ++ render ps

abbrev pending : Place → Bytes
pending outside = []
pending (behind name) = percent ∷ name

render-literal : (s : Bytes) (ps : List Piece) → render (literal s ++ ps) ≡ s ++ render ps
render-literal [] ps = refl
render-literal (c ∷ s) ps = ap (λ r. c ∷ r) (render-literal s ps)

render-literal_self : (s : Bytes) → render (literal s) ≡ s
render-literal_self [] = refl
render-literal_self (c ∷ s) = ap (λ r. c ∷ r) (render-literal_self s)

render-scan : (s : Bytes) (p : Place) → render (scan s p) ≡ pending p ++ s
unfolding scan
render-scan [] outside = refl
render-scan [] (behind name) =
    rw (render-literal_self (percent ∷ name)) (sym (append-nil (percent ∷ name)))
render-scan (c ∷ s) outside = ground (arith, render-scan s outside, render-scan s (behind []))
render-scan (c ∷ s) (behind []) =
    ground
      (arith, render-scan s outside, render-scan s (behind []), render-scan s (behind (c ∷ [])))
render-scan (c ∷ s) (behind (d ∷ name)) = ground (
  arith,
  render-scan s outside,
  render-scan s (behind (d ∷ (name ++ c ∷ []))),
  append_assoc name (c ∷ []) s,
  append_assoc name (percent ∷ []) s,
  render-literal (percent ∷ d ∷ name) (byte c ∷ scan s outside),
)

-- The tokens of a text spell it: nothing is lost or moved.
pub render-pieces : (s : Bytes) → render (pieces s) ≡ s
unfolding pieces
render-pieces s = render-scan s outside

module _ (vars : Vars) where
  bind-prefixed : (v : Bytes) (r : Processed Bytes) → (r >>= λ a. good (v ++ a)) ≡ prefixed v r
  bind-prefixed v (good r) = refl
  bind-prefixed v (bad e) = refl

  byte-Substituted :
      (c : ℕ) (s : Bytes) (ps : List Piece)
      → (Opens (c ∷ s) → ⊥)
      → Substituted vars s (expand vars ps)
      → Substituted vars (c ∷ s) (expand vars (byte c ∷ ps))
  unfolding expand
  byte-Substituted c s ps o h =
      subst (Substituted vars (c ∷ s)) (sym (bind-prefixed (c ∷ []) (expand vars ps)))
        (plain c s (expand vars ps) o h)

  -- The bytes of a name stay where no `%` stands in front of them.
  name-Substituted :
      (n s : Bytes) (ps : List Piece)
      → All IsVarByte n
      → Substituted vars s (expand vars ps)
      → Substituted vars (n ++ s) (expand vars (literal n ++ ps))
  name-Substituted [] s ps k h = h
  name-Substituted (c ∷ n) s ps (v, k) h =
      byte-Substituted c (n ++ s) (literal n ++ ps) (byte-Opens c (n ++ s) (λ e. no_percent c e v))
        (name-Substituted n s ps k h)

  var-Substituted :
      (name s : Bytes) (ps : List Piece)
      → IsName name
      → Substituted vars s (expand vars ps)
      → Substituted vars (percent ∷ (name ++ percent ∷ s)) (expand vars (var name ∷ ps))
  unfolding expand expand_var
  var-Substituted name s ps n h = go (value_of name vars) (value_of-IsValue name vars)
    where
      go :
          (o : Option Bytes)
          → IsValue name vars o
          → Substituted vars (percent ∷ (name ++ percent ∷ s)) (expand_var o name (expand vars ps))
      go none k = missing name s n k
      go (some v) k =
          subst (Substituted vars (percent ∷ (name ++ percent ∷ s)))
            (sym (bind-prefixed v (expand vars ps))) (valued name v s (expand vars ps) n k h)

  -- What is left of the text, where the bytes of a name may stand behind a `%`.
  abbrev Scanned : Bytes → Place → Type 0
  Scanned s outside = Substituted vars s (expand vars (scan s outside))
  Scanned s (behind n) =
      All IsVarByte n → Substituted vars (percent ∷ (n ++ s)) (expand vars (scan s (behind n)))

  -- A `%` and the bytes of a name behind it that no `%` follows.
  open-Substituted :
      (n s : Bytes) (ps : List Piece)
      → All IsVarByte n
      → (Opens (percent ∷ (n ++ s)) → ⊥)
      → Substituted vars s (expand vars ps)
      → Substituted vars (percent ∷ (n ++ s)) (expand vars (byte percent ∷ (literal n ++ ps)))
  open-Substituted n s ps k o h =
      byte-Substituted percent (n ++ s) (literal n ++ ps) o (name-Substituted n s ps k h)

  ended-Opens : (n : Bytes) → All IsVarByte n → Opens (percent ∷ (n ++ [])) → ⊥
  ended-Opens n k (n', rest, h, e) =
      unclosed n n' rest k
        (sym (append-nil n) ∙ (heads percent percent (n ++ []) (n' ++ percent ∷ rest) e).1)

  stopped-Opens :
      (n s : Bytes) (c : ℕ)
      → All IsVarByte n
      → (IsVarByte c → ⊥)
      → (c ≡ percent → ⊥)
      → Opens (percent ∷ (n ++ c ∷ s))
      → ⊥
  stopped-Opens n s c k v p (n', rest, h, e) =
      stopped n n' s rest c k (names n' h) v p
        (heads percent percent (n ++ c ∷ s) (n' ++ percent ∷ rest) e).1

  twice-Opens : (s : Bytes) → Opens (percent ∷ percent ∷ s) → ⊥
  twice-Opens s ([], rest, h, e) = absurd h
  twice-Opens s (x ∷ n, rest, (v, _), e) =
      no_percent x
        (sym
          (heads percent x s (n ++ percent ∷ rest)
            (heads percent percent (percent ∷ s) (x ∷ (n ++ percent ∷ rest)) e).1).0)
        v

  is_percent : (c : ℕ) → (c == percent) ≡ true → c ≡ percent
  is_percent c h = ground (arith, h)

  is_no_percent : (c : ℕ) → (c == percent) ≡ false → c ≡ percent → ⊥
  is_no_percent c h e = ground (arith, h, e)

  stopped-Substituted :
      (n : Bytes) (c : ℕ) (s : Bytes)
      → All IsVarByte n
      → is_var_byte c ≡ false
      → (c == percent) ≡ false
      → Substituted vars s (expand vars (scan s outside))
      → Substituted vars
          (percent ∷ (n ++ c ∷ s))
          (expand vars (byte percent ∷ (literal n ++ (byte c ∷ scan s outside))))
  stopped-Substituted n c s k v p h =
      open-Substituted n (c ∷ s) (byte c ∷ scan s outside) k
        (stopped-Opens n s c k (no_var_byte c v) (is_no_percent c p))
        (byte-Substituted c s (scan s outside) (byte-Opens c s (is_no_percent c p)) h)

  nil-Substituted : Substituted vars [] (expand vars [])
  unfolding expand
  nil-Substituted = ended

  scan-Scanned : (s : Bytes) (p : Place) → Scanned s p
  unfolding scan
  scan-Scanned [] outside = nil-Substituted
  scan-Scanned [] (behind n) = λ k.
      subst (λ ps. Substituted vars (percent ∷ (n ++ [])) (expand vars (byte percent ∷ ps)))
        (append-nil (literal n)) (open-Substituted n [] [] k (ended-Opens n k) nil-Substituted)
  scan-Scanned (c ∷ s) outside =
      if_rule_by (λ ps. Substituted vars (c ∷ s) (expand vars ps)) (c == percent) _ _
        (λ y.
          subst (λ x. Substituted vars (x ∷ s) (expand vars (scan s (behind []))))
            (sym (is_percent c y)) (scan-Scanned s (behind []) tt))
        (λ n.
          byte-Substituted c s (scan s outside) (byte-Opens c s (is_no_percent c n))
            (scan-Scanned s outside))
  scan-Scanned (c ∷ s) (behind []) = λ k.
      if_rule_by (λ ps. Substituted vars (percent ∷ c ∷ s) (expand vars ps)) (c == percent) _ _
        (λ y.
          subst
            (λ x.
              Substituted vars (percent ∷ x ∷ s) (expand vars (byte percent ∷ scan s (behind []))))
            (sym (is_percent c y))
            (byte-Substituted percent (percent ∷ s) (scan s (behind [])) (twice-Opens s)
              (scan-Scanned s (behind []) tt)))
        (λ n.
          if_rule_by (λ ps. Substituted vars (percent ∷ c ∷ s) (expand vars ps)) (is_var_byte c) _ _
            (λ v. scan-Scanned s (behind (c ∷ [])) (var_byte c v, tt))
            (λ v. stopped-Substituted [] c s tt v n (scan-Scanned s outside)))
  scan-Scanned (c ∷ s) (behind (d ∷ name)) = λ k.
      if_rule_by (λ ps. Substituted vars (percent ∷ d ∷ (name ++ c ∷ s)) (expand vars ps))
        (c == percent) _ _
        (λ y.
          subst
            (λ x.
              Substituted vars (percent ∷ d ∷ (name ++ x ∷ s))
                (expand vars (var (d ∷ name) ∷ scan s outside)))
            (sym (is_percent c y))
            (var-Substituted (d ∷ name) s (scan s outside) k (scan-Scanned s outside)))
        (λ n.
          if_rule_by (λ ps. Substituted vars (percent ∷ d ∷ (name ++ c ∷ s)) (expand vars ps))
            (is_var_byte c) _ _
            (λ v.
              subst
                (λ t.
                  Substituted vars (percent ∷ d ∷ t)
                    (expand vars (scan s (behind (d ∷ (name ++ c ∷ []))))))
                (append_assoc name (c ∷ []) s)
                (scan-Scanned s (behind (d ∷ (name ++ c ∷ [])))
                  (k.0, All-append IsVarByte name (c ∷ []) k.1 (var_byte c v, tt))))
            (λ v. stopped-Substituted (d ∷ name) c s k v n (scan-Scanned s outside)))

-- The text is read from the left. Where a variable starts, which is a `%`, a name of letters,
-- digits, `_` and `-`, and a `%`, the first value that the name is given takes its place, or the
-- substitution fails and names it where it is given none; every other byte stays as it is. The text
-- behind a variable is read in the same way, and values are not read again.
pub process_substitute-Substituted :
    (s : Bytes) (vars : Vars) → Substituted vars s (process_substitute s vars)
unfolding process_substitute pieces
process_substitute-Substituted s vars = scan-Scanned vars s outside
