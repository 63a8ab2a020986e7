-- ===== src/Text/Split.antt =====
-- `Split` at one byte and `Join` with it undo each other.
use dns_entree.Base.{
  ℕ, ◌≡◌, refl, sym, ap, ◌∙◌, List, [], ◌∷◌, ◌++◌, arith, ◌==◌, ==_iff, All, Bool-cases, inl, inr,
  append_assoc, append-nil,
}
use dns_entree.Text.Core.{Bytes, Lacks}
use dns_entree.Text.Fields.{join, parts, split}

module _ (sep : ℕ) where
  parts_cons : (s cur : Bytes) → (p : Bytes) × (ps : List Bytes) × (parts sep s cur ≡ p ∷ ps)
  unfolding parts
  parts_cons [] cur = (cur, [], refl)
  parts_cons (c ∷ s) cur = elim (Bool-cases (c == sep)) [
    | inl y ↦ (cur, parts sep s [], rw y)
    | inr n ↦ let (p, ps, e) = parts_cons s (cur ++ c ∷ []) in (p, ps, rw n e)
  ]

  join_cons :
      (cur s : Bytes)
      → join (cur ∷ parts sep s []) (sep ∷ []) ≡ cur ++ (sep ∷ join (parts sep s []) (sep ∷ []))
  unfolding join
  join_cons cur s = let (p, ps, e) = parts_cons s [] in rw e

  join-parts : (s cur : Bytes) → join (parts sep s cur) (sep ∷ []) ≡ cur ++ s
  unfolding parts join
  join-parts [] cur = sym (append-nil cur)
  join-parts (c ∷ s) cur = elim (Bool-cases (c == sep)) [
    | inl y ↦ rw y (join_cons cur s ∙ ap (λ t. cur ++ t) (cc ((==_iff c sep).0 y, join-parts s [])))
    | inr n ↦ rw n (join-parts s (cur ++ c ∷ []) ∙ append_assoc cur (c ∷ []) s)
  ]

  pub join-split : (s : Bytes) → join (split s sep) (sep ∷ []) ≡ s
  unfolding split
  join-split s = join-parts s []

  -- A part without the separator is read to its end.
  parts_word : (w s cur : Bytes) → Lacks sep w → parts sep (w ++ s) cur ≡ parts sep s (cur ++ w)
  unfolding parts
  parts_word [] s cur _ = ap (parts sep s) (sym (append-nil cur))
  parts_word (c ∷ w) s cur (n, h) = elim (Bool-cases (c == sep)) [
    | inl y ↦ absurd (n ((==_iff c sep).0 y))
    | inr z ↦
        rw z (parts_word w s (cur ++ c ∷ []) h ∙ ap (parts sep s) (append_assoc cur (c ∷ []) w))
  ]

  parts_sep : (s cur : Bytes) → parts sep (sep ∷ s) cur ≡ cur ∷ parts sep s []
  unfolding parts
  parts_sep s cur = ground (arith, (==_iff sep sep).1 refl)

  pub split-join :
      (w : Bytes) (ws : List Bytes)
      → All (Lacks sep) (w ∷ ws)
      → split (join (w ∷ ws) (sep ∷ [])) sep ≡ w ∷ ws
  unfolding split join parts
  split-join w [] (h, _) = ap (λ t. parts sep t []) (sym (append-nil w)) ∙ parts_word w [] [] h
  split-join w (v ∷ ws) (h, k) =
      parts_word w (sep ∷ join (v ∷ ws) (sep ∷ [])) [] h
      ∙ (parts_sep (join (v ∷ ws) (sep ∷ [])) w ∙ ap (λ t. w ∷ t) (split-join v ws k))
