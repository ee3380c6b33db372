-- ===== src/Ingest/Chunks/Words.antt =====
-- The words of a text, and the text of words.
use synamcps_server.Prelude.{
  ℕ, Bool, true, false, not, List, [], ◌∷◌, ◌++◌, ◌≡◌, refl, ap, ◌∙◌, arith, All, all, is_empty,
  Bool-cases, inl, inr, append_assoc, append_nil, all-append,
}
use synamcps_server.Prelude.Strings.{Runes}
use synamcps_server.Prelude.Runes.{is_space}
use synamcps_server.Ingest.Chunks.{flush, fields_from, fields, join}

abbrev pub no_space : ℕ → Bool
no_space c = not (is_space c)

abbrev pub IsWord : Runes → Type 0
IsWord w = (is_empty w ≡ false) × (all no_space w ≡ true)

flush-IsWord :
    (w : Runes) (rest : List Runes)
    → all no_space w ≡ true
    → All IsWord rest
    → All IsWord (flush w rest)
flush-IsWord [] rest h r = r
flush-IsWord (c ∷ w) rest h r = ((refl, h), r)

no_space-snoc :
    (w : Runes) (c : ℕ)
    → all no_space w ≡ true
    → is_space c ≡ false
    → all no_space (w ++ c ∷ []) ≡ true
no_space-snoc w c h e = all-append no_space w (c ∷ []) ∙ ground (arith)

fields_from-IsWord : (w s : Runes) → all no_space w ≡ true → All IsWord (fields_from w s)
unfolding fields_from
fields_from-IsWord w [] h = flush-IsWord w [] h tt
fields_from-IsWord w (c ∷ s) h = elim (Bool-cases (is_space c)) [
  | inl space ↦ rw space (flush-IsWord w _ h (fields_from-IsWord [] s refl))
  | inr letter ↦ rw letter (fields_from-IsWord (w ++ c ∷ []) s (no_space-snoc w c h letter))
]

pub fields-IsWord : (s : Runes) → All IsWord (fields s)
fields-IsWord s = fields_from-IsWord [] s refl

-- a word is read to its end
fields_from-append :
    (acc w s : Runes) → all no_space w ≡ true → fields_from acc (w ++ s) ≡ fields_from (acc ++ w) s
unfolding fields_from
fields_from-append acc [] s h = ap (λ a. fields_from a s) (append_nil acc)
fields_from-append acc (c ∷ w) s h = elim (Bool-cases (is_space c)) [
  | inl space ↦ absurd (ground arith)
  | inr letter ↦
      rw (fields_from, letter)
        (fields_from-append (acc ++ c ∷ []) w s (ground arith)
          ∙ ap (λ a. fields_from a s) (append_assoc acc (c ∷ []) w))
]

flush-word : (w : Runes) (rest : List Runes) → IsWord w → flush w rest ≡ w ∷ rest
flush-word [] rest h = absurd (ground arith)
flush-word (c ∷ w) rest h = refl

fields-word : (w s : Runes) → IsWord w → fields (w ++ 32 ∷ s) ≡ w ∷ fields s
unfolding fields_from
fields-word w s h = fields_from-append [] w (32 ∷ s) h.1 ∙ flush-word w (fields s) h

-- Words that are joined by spaces are read back.
pub fields-join : (words : List Runes) → All IsWord words → fields (join words) ≡ words
unfolding join fields_from
fields-join [] h = refl
fields-join (w ∷ []) h =
    ap fields (append_nil w) ∙ fields_from-append [] w [] h.0.1 ∙ flush-word w [] h.0
fields-join (w ∷ v ∷ words) h =
    fields-word w (join (v ∷ words)) h.0 ∙ ap (λ l. w ∷ l) (fields-join (v ∷ words) h.1)
