-- ===== src/DataServices/Bus/Loop.antt =====
-- The loop of Consume over a numbered log, and the parts of such a log.
use synamcps_server.Prelude.Lists.{append_nil, append_assoc, length-append}
use synamcps_server.Prelude.Numbered.{Numbered}
use synamcps_server.Prelude.{
  ℕ, zero, suc, ◌+◌, ◌≤◌, ◌<◌, ltb, leb, true, false, List, [], ◌∷◌, ◌++◌, ◌≡◌, refl, ap, ◌∙◌,
  subst, arith, length, take, drop,
}
use synamcps_server.DataServices.Bus.{Event, read_loop}

-- Behind the last, the loop is the next events, as many as are wanted.
read_loop_after :
    (last max k n : ℕ) (out events : List Event)
    → Numbered (λ e. e.id) n events
    → last < n
    → suc k + length out ≡ max
    → read_loop last max out events ≡ out ++ take (suc k) events
unfolding read_loop
read_loop_after last max k n out [] h lt m = append_nil out
read_loop_after last max zero n out (e ∷ events) h lt m =
    let after : ltb last e.id ≡ true = ground arith in
    let full : leb max (length (out ++ e ∷ [])) ≡ true =
      ground (arith, length-append out (e ∷ [])) in
    rw (read_loop, after, full) refl
read_loop_after last max (suc k) n out (e ∷ events) h lt m =
    let after : ltb last e.id ≡ true = ground arith in
    let more : leb max (length (out ++ e ∷ [])) ≡ false =
      ground (arith, length-append out (e ∷ [])) in
    rw (read_loop, after, more)
      (read_loop_after last max k (suc n) (out ++ e ∷ []) events h.1 (ground arith)
          (ground (arith, length-append out (e ∷ [])))
        ∙ append_assoc out (e ∷ []) (take (suc k) events))

-- The loop over a numbered log leaves out the events up to the last.
pub read_loop_lem :
    (last max k n d : ℕ) (out events : List Event)
    → Numbered (λ e. e.id) n events
    → n + d ≡ suc last
    → suc k + length out ≡ max
    → read_loop last max out events ≡ out ++ take (suc k) (drop d events)
unfolding read_loop
read_loop_lem last max k n zero out events h e m =
    read_loop_after last max k n out events h (ground arith) m
read_loop_lem last max k n (suc d) out [] h e m = append_nil out
read_loop_lem last max k n (suc d) out (x ∷ events) h e m =
    let before : ltb last x.id ≡ false = ground arith in
    rw (read_loop, before) (read_loop_lem last max k (suc n) d out events h.1 (ground arith) m)

pub take-drop-length {ℓ} :
    {A : Type ℓ} (n : ℕ) (xs : List A) → take n xs ++ drop (length (take n xs)) xs ≡ xs
take-drop-length zero xs = refl
take-drop-length (suc n) [] = refl
take-drop-length (suc n) (x ∷ xs) = ap (λ l. x ∷ l) (take-drop-length n xs)

pub drop-drop {ℓ} :
    {A : Type ℓ} (m n k : ℕ) (xs : List A) → k ≡ m + n → drop n (drop m xs) ≡ drop k xs
drop-drop zero n k xs e = ap (λ j. drop j xs) (ground arith)
drop-drop (suc m) n zero xs e = absurd (ground arith)
drop-drop (suc m) zero (suc k) [] e = refl
drop-drop (suc m) (suc n) (suc k) [] e = refl
drop-drop (suc m) n (suc k) (x ∷ xs) e = drop-drop m n k xs (ground arith)

pub drop-append {ℓ} :
    {A : Type ℓ} (n : ℕ) (xs ys : List A) → n ≤ length xs → drop n (xs ++ ys) ≡ drop n xs ++ ys
drop-append zero xs ys h = refl
drop-append (suc n) [] ys h = absurd (ground arith)
drop-append (suc n) (x ∷ xs) ys h = drop-append n xs ys (ground arith)

pub Numbered-drop :
    (n k : ℕ) (xs : List Event)
    → Numbered (λ e. e.id) n xs
    → k ≤ length xs
    → Numbered (λ e. e.id) (n + k) (drop k xs)
Numbered-drop n zero xs h le = subst (λ m. Numbered (λ e. e.id) m xs) (ground arith) h
Numbered-drop n (suc k) [] h le = absurd (ground arith)
Numbered-drop n (suc k) (x ∷ xs) h le =
    subst (λ m. Numbered (λ e. e.id) m (drop k xs)) (ground arith)
      (Numbered-drop (suc n) k xs h.1 (ground arith))

pub Numbered-take :
    (n k : ℕ) (xs : List Event) → Numbered (λ e. e.id) n xs → Numbered (λ e. e.id) n (take k xs)
Numbered-take n zero xs h = tt
Numbered-take n (suc k) [] h = tt
Numbered-take n (suc k) (x ∷ xs) h = (h.0, Numbered-take (suc n) k xs h.1)
