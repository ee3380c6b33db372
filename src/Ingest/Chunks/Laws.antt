-- ===== src/Ingest/Chunks/Laws.antt =====
-- The chunks of a text, put together, are the words of the text, and no chunk is too large.
use synamcps_server.Prelude.{
  ℕ, zero, suc, ◌+◌, ◌-◌, ◌≤◌, ◌<◌, ltb, ◌==◌, true, false, Option, some, List, [], ◌∷◌, ◌++◌, map,
  ◌≡◌, refl, sym, ap, ◌∙◌, subst, arith, All, Bool-cases, inl, inr, append_assoc, length, take,
  drop, length-drop, length-take, take-append-drop,
}
use synamcps_server.Prelude.Strings.{Runes}
use synamcps_server.Prelude.Ints.{ℤ, pos, negsuc, or_default, or_zero}
use synamcps_server.Ingest.Chunks.{
  fields, join, slice, step_of, end_of, split_loop, split_tokens, split_text,
}
use synamcps_server.Ingest.Chunks.Words.{IsWord, fields-IsWord, fields-join}

-- The first `step` elements of every list but the last, and the last.
abbrev pub unwind {ℓ} : {A : Type ℓ} → ℕ → List (List A) → List A
unwind step [] = []
unwind step (w ∷ []) = w
unwind step (w ∷ v ∷ ws) = take step w ++ unwind step (v ∷ ws)

-- What a window of the words is.
abbrev pub Fits : ℕ → List Runes → Type 0
Fits size w = (0 < length w) × (length w ≤ size) × All IsWord w

take-take {ℓ} : {A : Type ℓ} (m n : ℕ) (xs : List A) → m ≤ n → take m (take n xs) ≡ take m xs
take-take zero n xs h = refl
take-take (suc m) zero xs h = absurd (omega arith)
take-take (suc m) (suc n) [] h = refl
take-take (suc m) (suc n) (x ∷ xs) h = ap (λ l. x ∷ l) (take-take m n xs (omega arith))

drop-add {ℓ} : {A : Type ℓ} (m n k : ℕ) (xs : List A) → k ≡ m + n → drop k xs ≡ drop n (drop m xs)
drop-add zero n k xs e = ap (λ j. drop j xs) (omega arith)
drop-add (suc m) n zero xs e = absurd (omega arith)
drop-add (suc m) zero (suc k) [] e = refl
drop-add (suc m) (suc n) (suc k) [] e = refl
drop-add (suc m) n (suc k) (x ∷ xs) e = drop-add m n k xs (omega arith)

take-all {ℓ} : {A : Type ℓ} (n : ℕ) (xs : List A) → length xs ≤ n → take n xs ≡ xs
take-all zero [] h = refl
take-all zero (x ∷ xs) h = absurd (omega arith)
take-all (suc n) [] h = refl
take-all (suc n) (x ∷ xs) h = ap (λ l. x ∷ l) (take-all n xs (omega arith))

All-take {ℓ κ} : {A : Type ℓ} (P : A → Type κ) (n : ℕ) (xs : List A) → All P xs → All P (take n xs)
All-take P zero xs h = tt
All-take P (suc n) [] h = tt
All-take P (suc n) (x ∷ xs) h = (h.0, All-take P n xs h.1)

All-drop {ℓ κ} : {A : Type ℓ} (P : A → Type κ) (n : ℕ) (xs : List A) → All P xs → All P (drop n xs)
All-drop P zero xs h = h
All-drop P (suc n) [] h = tt
All-drop P (suc n) (x ∷ xs) h = All-drop P n xs h.1

-- What the loop appends from `i` on, as windows of the words, the first one apart.
abbrev Split : ℕ → ℕ → List Runes → List Runes → Option (List Runes) → Type 0
Split size step rest out result =
    (w : List Runes) × (ws : List (List Runes)) × (result ≡ some (out ++ map join (w ∷ ws)))
    × (unwind step (w ∷ ws) ≡ rest)
    × All (Fits size) (w ∷ ws)

module _ (tokens : List Runes) (size step i : ℕ) where
  end_last : length tokens ≤ i + size → end_of tokens size i ≡ length tokens
  end_last last = ground arith

  end_more : i + size < length tokens → end_of tokens size i ≡ i + size
  end_more more = ground arith

  slice_last : slice tokens i (length tokens) ≡ drop i tokens
  slice_last = take-all (length tokens - i) (drop i tokens) (omega (arith, length-drop i tokens))

  slice_more : slice tokens i (i + size) ≡ take size (drop i tokens)
  slice_more = ap (λ n. take n (drop i tokens)) (omega arith)

  split_loop_last :
      (fuel : ℕ) (out : List Runes)
      → i < length tokens
      → length tokens ≤ i + size
      → split_loop (suc fuel) tokens size step i out ≡ some (out ++ join (drop i tokens) ∷ [])
  unfolding split_loop
  split_loop_last fuel out lt last =
      let inside : ltb i (length tokens) ≡ true = ground arith in
      let full : (length tokens == length tokens) ≡ true = ground arith in
      rw (split_loop, inside, end_last last, full, slice_last) refl

  split_loop_more :
      (fuel : ℕ) (out : List Runes)
      → i + size < length tokens
      → split_loop (suc fuel) tokens size step i out
        ≡ split_loop fuel tokens size step (i + step) (out ++ join (take size (drop i tokens)) ∷ [])
  unfolding split_loop
  split_loop_more fuel out more =
      let inside : ltb i (length tokens) ≡ true = ground arith in
      let open_end : (i + size == length tokens) ≡ false = ground arith in
      rw (split_loop, inside, end_more more, open_end, slice_more) refl

module _ (tokens : List Runes) (size step : ℕ) (words : All IsWord tokens) (positive : 0 < step)
    (le : step ≤ size) where
  drop-Fits : (i : ℕ) → i < length tokens → length tokens ≤ i + size → Fits size (drop i tokens)
  drop-Fits i lt last = (
    omega (arith, length-drop i tokens),
    omega (arith, length-drop i tokens),
    All-drop IsWord i tokens words,
  )

  take-Fits : (i : ℕ) → i + size < length tokens → Fits size (take size (drop i tokens))
  take-Fits i more = (
    omega (arith, length-drop i tokens, length-take size (drop i tokens)),
    omega (arith, length-drop i tokens, length-take size (drop i tokens)),
    All-take IsWord size (drop i tokens) (All-drop IsWord i tokens words),
  )

  window : (i : ℕ) → take step (take size (drop i tokens)) ++ drop (i + step) tokens ≡ drop i tokens
  window i =
      ap (λ l. l ++ drop (i + step) tokens) (take-take step size (drop i tokens) le)
      ∙ ap (λ l. take step (drop i tokens) ++ l) (drop-add i step (i + step) tokens refl)
      ∙ take-append-drop step (drop i tokens)

  -- fuel for every word that is left is enough
  split_loop-Split :
      (fuel i : ℕ) (out : List Runes)
      → i < length tokens
      → length tokens < fuel + i
      → Split size step (drop i tokens) out (split_loop fuel tokens size step i out)
  split_loop-Split zero i out lt enough = absurd (omega arith)
  split_loop-Split (suc fuel) i out lt enough = elim (Bool-cases (ltb (i + size) (length tokens))) [
    | inr last ↦ (
      drop i tokens,
      [],
      split_loop_last tokens size step i fuel out lt (ground arith),
      refl,
      (drop-Fits i lt (ground arith), tt),
    )
    | inl more ↦
        let w = take size (drop i tokens) in
        let (v, vs, run, all, fit) =
          split_loop-Split fuel (i + step) (out ++ join w ∷ []) (ground arith) (ground arith) in
        (
          w,
          v ∷ vs,
          split_loop_more tokens size step i fuel out (ground arith)
              ∙ run
              ∙ ap some (append_assoc out (join w ∷ []) (map join (v ∷ vs))),
          ap (λ l. take step w ++ l) all ∙ window i,
          (take-Fits i (ground arith), fit),
        )
  ]

fields-join-map :
    (size : ℕ) (ws : List (List Runes)) → All (Fits size) ws → map fields (map join ws) ≡ ws
fields-join-map size [] h = refl
fields-join-map size (w ∷ ws) h =
    ap (λ l. fields (join w) ∷ l) (fields-join-map size ws h.1)
    ∙ ap (λ l. l ∷ ws) (fields-join w h.0.2)

-- The words of a chunk are at least one and at most the size.
abbrev pub IsChunk : ℕ → Runes → Type 0
IsChunk size chunk = (0 < length (fields chunk)) × (length (fields chunk) ≤ size)

chunks_fit :
    (size : ℕ) (ws : List (List Runes)) → All (Fits size) ws → All (IsChunk size) (map join ws)
chunks_fit size [] h = tt
chunks_fit size (w ∷ ws) h = (
  subst (λ l. (0 < length l) × (length l ≤ size)) (sym (fields-join w h.0.2)) (h.0.0, h.0.1),
  chunks_fit size ws h.1,
)

-- Cutting a list of words always ends.
pub split_tokens_lem :
    (tokens : List Runes) (size overlap : ℕ)
    → All IsWord tokens
    → 0 < size
    → (chunks : List Runes) × (split_tokens tokens size overlap ≡ some chunks)
      × (unwind (step_of size overlap) (map fields chunks) ≡ tokens)
      × All (IsChunk size) chunks
unfolding split_tokens
split_tokens_lem [] size overlap words positive = ([], refl, refl, tt)
split_tokens_lem (t ∷ tokens) size overlap words positive =
    let (w, ws, run, all, fit) =
      split_loop-Split (t ∷ tokens) size (step_of size overlap) words (ground arith) (ground arith)
        (suc (length (t ∷ tokens))) 0 [] (omega arith) (omega arith) in
    (
      map join (w ∷ ws),
      run,
      ap (unwind (step_of size overlap)) (fields-join-map size (w ∷ ws) fit) ∙ all,
      chunks_fit size (w ∷ ws) fit,
    )

or_default_pos : (n : ℤ) (d : ℕ) → 0 < d → 0 < or_default n d
or_default_pos (pos zero) d h = h
or_default_pos (pos (suc n)) d h = omega arith
or_default_pos (negsuc n) d h = h

-- Whatever the size and the overlap, cutting a text ends; every chunk has at least one word and at
-- most as many as the size; and the words of the text are, in order, those of the chunks, of which
-- each but the last counts up to where the next one begins.
pub split_text_lem :
    (text : Runes) (chunk_size overlap : ℤ)
    → (chunks : List Runes) × (split_text text chunk_size overlap ≡ some chunks)
      × (unwind (step_of (or_default chunk_size 500) (or_zero overlap)) (map fields chunks)
          ≡ fields text)
      × All (IsChunk (or_default chunk_size 500)) chunks
unfolding split_text
split_text_lem text chunk_size overlap =
    split_tokens_lem (fields text) (or_default chunk_size 500) (or_zero overlap)
      (fields-IsWord text) (or_default_pos chunk_size 500 (omega arith))
