-- ===== src/Text/Fields.antt =====
-- `Fields`, `Split` at one byte, and `Join`.
use dns_entree.Base.{
  ℕ, ◌≡◌, ◌≢◌, refl, false, List, [], ◌∷◌, ◌++◌, arith, ◌==◌, if◌then◌else◌, All, append_assoc,
  append-nil,
}
use dns_entree.Text.Core.{Bytes, space}
use dns_entree.Text.Trim.{is_space}

-- A word that has been read goes in front of the words after it, unless it is empty.
abbrev pub flush : Bytes → List Bytes → List Bytes
flush [] words = words
flush (c ∷ s) words = (c ∷ s) ∷ words

unfoldable pub words : Bytes → Bytes → List Bytes
unfolding is_space
words [] cur = flush cur []
words (c ∷ s) cur =
    let ended = flush cur (words s []) in
    let longer = words s (cur ++ c ∷ []) in if is_space c then ended else longer

-- The words of a text, without the white space around them.
unfoldable pub fields : Bytes → List Bytes
unfolding words
fields s = words s []

unfoldable pub join : List Bytes → Bytes → Bytes
join [] sep = []
join (p ∷ []) sep = p
join (p ∷ q ∷ ps) sep = p ++ (sep ++ join (q ∷ ps) sep)

unfoldable pub parts : ℕ → Bytes → Bytes → List Bytes
parts sep [] cur = cur ∷ []
parts sep (c ∷ s) cur =
    let ended = cur ∷ parts sep s [] in
    let longer = parts sep s (cur ++ c ∷ []) in if c == sep then ended else longer

-- `strings.Split` at a separator of one byte: there is always at least one part.
unfoldable pub split : Bytes → ℕ → List Bytes
unfolding parts
split s sep = parts sep s []

words-append-space : (s t cur : Bytes) → words (s ++ space ∷ t) cur ≡ words s cur ++ words t []
unfolding words
words-append-space [] t [] = refl
words-append-space [] t (d ∷ cur) = refl
words-append-space (c ∷ s) t [] =
    ground (arith, words-append-space s t [], words-append-space s t (c ∷ []))
words-append-space (c ∷ s) t (d ∷ cur) =
    ground (arith, words-append-space s t [], words-append-space s t (d ∷ (cur ++ c ∷ [])))

-- A space ends a word: the words of a text are those before the space and those after it.
pub fields-append-space : (s t : Bytes) → fields (s ++ space ∷ t) ≡ fields s ++ fields t
unfolding fields
fields-append-space s t = words-append-space s t []

-- A word holds no white space.
abbrev pub IsWord : Bytes → Type 0
IsWord s = (s ≢ []) × All (λ c. is_space c ≡ false) s

words_word : (s cur : Bytes) → All (λ c. is_space c ≡ false) s → words s cur ≡ flush (cur ++ s) []
unfolding words
words_word [] cur h = rw append-nil
words_word (c ∷ s) cur (hc, h) = rw (hc, words_word s (cur ++ c ∷ []) h, append_assoc)

pub fields_word : (s : Bytes) → IsWord s → fields s ≡ s ∷ []
unfolding fields
fields_word [] (n, h) = absurd (n refl)
fields_word (c ∷ s) (n, h) = words_word (c ∷ s) [] h

-- Words that are joined by single spaces are read back.
pub fields-join : (ws : List Bytes) → All IsWord ws → fields (join ws (space ∷ [])) ≡ ws
unfolding join
fields-join [] h = unfold fields in refl
fields-join (w ∷ []) h = fields_word w h.0
fields-join (w ∷ v ∷ ws) h = rw (
  fields-append-space w (join (v ∷ ws) (space ∷ [])),
  fields_word w h.0,
  fields-join (v ∷ ws) h.1,
)
