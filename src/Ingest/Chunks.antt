-- ===== src/Ingest/Chunks.antt =====
-- `splitText` of internal/knowledge/ingest/pipeline.go, on texts of code points.
pub mod Words
pub mod Laws
use synamcps_server.Prelude.{
  ℕ, zero, suc, ◌+◌, ◌-◌, leb, ltb, ◌==◌, Bool, Option, none, some, List, [], ◌∷◌, ◌++◌,
  if◌then◌else◌, length, take, drop, min,
}
use synamcps_server.Prelude.Strings.{Runes}
use synamcps_server.Prelude.Runes.{is_space}
use synamcps_server.Prelude.Ints.{ℤ, or_default, or_zero}

-- `strings.Fields`: the texts between white space, with the one under way.
abbrev pub flush : Runes → List Runes → List Runes
flush [] rest = rest
flush (c ∷ w) rest = (c ∷ w) ∷ rest

unfoldable pub fields_from : Runes → Runes → List Runes
fields_from w [] = flush w []
fields_from w (c ∷ s) =
    let rest = fields_from (if is_space c then [] else w ++ c ∷ []) s in
    if is_space c then flush w rest else rest

abbrev pub fields : Runes → List Runes
fields s = fields_from [] s

-- `strings.Join(words, " ")`
unfoldable pub join : List Runes → Runes
join [] = []
join (w ∷ []) = w
join (w ∷ v ∷ words) = w ++ (32 ∷ join (v ∷ words))

-- `tokens[i:end]`
abbrev pub slice : List Runes → ℕ → ℕ → List Runes
slice tokens i last = take (last - i) (drop i tokens)

abbrev pub step_of : ℕ → ℕ → ℕ
step_of size overlap = if leb size overlap then size else size - overlap

abbrev pub end_of : List Runes → ℕ → ℕ → ℕ
end_of tokens size i = if ltb (length tokens) (i + size) then length tokens else i + size

-- The loop over `i`, with fuel; `none` is that the fuel ran out.
unfoldable pub split_loop : ℕ → List Runes → ℕ → ℕ → ℕ → List Runes → Option (List Runes)
split_loop zero tokens size step i out = none
split_loop (suc fuel) tokens size step i out =
    let out' = out ++ join (slice tokens i (end_of tokens size i)) ∷ [] in
    let rest = split_loop fuel tokens size step (i + step) out' in
    if ltb i (length tokens)
    then (if end_of tokens size i == length tokens then some out' else rest)
    else some out

unfoldable pub split_tokens : List Runes → ℕ → ℕ → Option (List Runes)
unfolding split_loop
split_tokens [] size overlap = some []
split_tokens (t ∷ tokens) size overlap =
    split_loop (suc (length (t ∷ tokens))) (t ∷ tokens) size (step_of size overlap) 0 []

-- `splitText`; the defaults are a size of 500 and no overlap
unfoldable pub split_text : Runes → ℤ → ℤ → Option (List Runes)
unfolding split_tokens fields_from
split_text text chunk_size overlap =
    split_tokens (fields text) (or_default chunk_size 500) (or_zero overlap)
