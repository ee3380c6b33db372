-- ===== src/Prelude/Numbered.antt =====
-- Lists whose elements are numbered in order, as where an id is the length of a list and one.
use mathlib.Core.List as List
use mathlib.Core.List.{Memᴰ}
use synamcps_server.Prelude.{
  ap, sym, inl, inr, ℕ, suc, ◌+◌, ◌<◌, ◌≤◌, some, List, [], ◌∷◌, ◌++◌, ◌≡◌, ◌==◌, length, last?,
  find?, map, arith,
}

module _ {ℓ} {A : Type ℓ} (id : A → ℕ) where
  abbrev pub Numbered : ℕ → List A → Type 0
  Numbered n [] = Unit
  Numbered n (x ∷ xs) = (id x ≡ n) × Numbered (suc n) xs

  pub Numbered-append :
      (n : ℕ) (xs : List A) (x : A)
      → Numbered n xs
      → id x ≡ n + length xs
      → Numbered n (xs ++ x ∷ [])
  Numbered-append n [] x h e = (ground arith, tt)
  Numbered-append n (y ∷ ys) x h e = (h.0, Numbered-append (suc n) ys x h.1 (ground arith))

  pub Numbered-last :
      (n : ℕ) (xs : List A) (x : A) → Numbered n xs → last? xs ≡ some x → suc (id x) ≡ n + length xs
  Numbered-last n [] x h e = absurd (ground arith)
  Numbered-last n (y ∷ []) x h e = ground arith
  Numbered-last n (y ∷ z ∷ zs) x h e = ground (arith, Numbered-last (suc n) (z ∷ zs) x h.1 e)

  -- the next number is no element's, so a search for it finds what is appended
  pub Numbered-find :
      (n k : ℕ) (xs : List A) (x : A)
      → Numbered n xs
      → n + length xs ≤ k
      → id x ≡ k
      → find? (λ a. id a == k) (xs ++ x ∷ []) ≡ some x
  Numbered-find n k [] x h le e = ground arith
  Numbered-find n k (y ∷ ys) x h le e = ground (arith, Numbered-find (suc n) k ys x h.1)

  pub Numbered-map :
      (f : A → A)
      → ((a : A) → id (f a) ≡ id a)
      → (n : ℕ) (xs : List A) → Numbered n xs
      → Numbered n (map f xs)
  Numbered-map f same n [] h = tt
  Numbered-map f same n (x ∷ xs) h = (ground (arith, same x), Numbered-map f same (suc n) xs h.1)

  pub Numbered-bound :
      (n : ℕ) (xs : List A) (k : ℕ) (x : A)
      → Numbered n xs
      → find? (λ a. id a == k) xs ≡ some x
      → (id x ≡ k) × (k < n + length xs)
  Numbered-bound n [] k x h e = absurd (ground arith)
  Numbered-bound n (y ∷ ys) k x h e = ground (arith, Numbered-bound (suc n) ys k x h.1)

  pub Numbered-mem : (n : ℕ) (xs : List A) (x : A) → Numbered n xs → Memᴰ x xs → n ≤ id x
  Numbered-mem n [] x h mem = absurd (List.Memᴰ.not-nil mem)
  Numbered-mem n (y ∷ ys) x h mem = elim (List.Memᴰ.cases_cons mem) [
    | inl e ↦ omega (arith, h.0, ap id e)
    | inr later ↦ omega (arith, Numbered-mem (suc n) ys x h.1 later)
  ]

  pub Numbered-end :
      (n : ℕ) (xs : List A) (x : A) → Numbered n (xs ++ x ∷ []) → id x ≡ n + length xs
  Numbered-end n [] x h = omega (arith, h.0)
  Numbered-end n (y ∷ ys) x h = omega (arith, Numbered-end (suc n) ys x h.1)

  -- the element of the last number is the last one
  pub Numbered-at_end :
      (n : ℕ) (xs : List A) (x p : A)
      → Numbered n (xs ++ x ∷ [])
      → Memᴰ p (xs ++ x ∷ [])
      → id p ≡ id x
      → p ≡ x
  Numbered-at_end n [] x p h mem e = List.Memᴰ.eq_of_singleton mem
  Numbered-at_end n (y ∷ ys) x p h mem e = elim (List.Memᴰ.cases_cons mem) [
    | inl first ↦ absurd (omega (arith, h.0, ap id first, Numbered-end (suc n) ys x h.1, e))
    | inr later ↦ Numbered-at_end (suc n) ys x p h.1 later e
  ]

  -- and that of the number before is the last one before it
  pub Numbered-before_end :
      (n : ℕ) (xs : List A) (x p : A)
      → Numbered n (xs ++ x ∷ [])
      → Memᴰ p (xs ++ x ∷ [])
      → suc (id p) ≡ id x
      → last? xs ≡ some p
  Numbered-before_end n [] x p h mem e =
      absurd (omega (arith, ap id (List.Memᴰ.eq_of_singleton mem), e))
  Numbered-before_end n (y ∷ []) x p h mem e = elim (List.Memᴰ.cases_cons mem) [
    | inl first ↦ ap some (sym first)
    | inr later ↦ absurd (omega (arith, ap id (List.Memᴰ.eq_of_singleton later), e))
  ]
  Numbered-before_end n (y ∷ z ∷ zs) x p h mem e = elim (List.Memᴰ.cases_cons mem) [
    | inl first ↦ absurd (omega (arith, h.0, ap id first, Numbered-end (suc n) (z ∷ zs) x h.1, e))
    | inr later ↦ Numbered-before_end (suc n) (z ∷ zs) x p h.1 later e
  ]
