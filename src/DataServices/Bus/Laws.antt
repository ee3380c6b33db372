-- ===== src/DataServices/Bus/Laws.antt =====
-- A consumer of a log in memory reads it in order, each event once, from the consumer's own offset.
use synamcps_server.Prelude.Lists.{length-take, length-drop, length-append}
use synamcps_server.Prelude.Numbered.{Numbered, Numbered-append, Numbered-last}
use synamcps_server.Prelude.{
  ℕ, zero, suc, ◌+◌, ◌≤◌, String, false, Option, none, some, List, [], ◌∷◌, ◌++◌, ◌≡◌, refl, sym,
  ap, ◌∙◌, subst, arith, eq_iff, eq_refl, Bool-cases, Option-cases, inl, inr, length, take, drop,
  last?,
}
use synamcps_server.Prelude.Strings.{◌=ˢ◌}
use synamcps_server.Prelude.Ints.{ℤ, pos, negsuc}
use synamcps_server.Json.{Fields}
use synamcps_server.DataServices.Bus.Loop.{
  read_loop_lem, take-drop-length, drop-drop, drop-append, Numbered-drop, Numbered-take,
}
use synamcps_server.DataServices.Bus.{Event, Service, mem_produce, mem_consume, move_offset, max_of}

-- An object's events are numbered from 1, and no consumer is ahead of them.
abbrev pub IsWellFormed : Service → Type 0
IsWellFormed s =
    (o : String) → Numbered (λ e. e.id) 1 (s.mem o) × ((c : String) → s.offs o c ≤ length (s.mem o))

-- The events that a consumer has yet to read.
abbrev pub pending : Service → String → String → List Event
pending s o c = drop (s.offs o c) (s.mem o)

pub max_of-suc : (max : ℤ) → (k : ℕ) × (max_of max ≡ suc k)
max_of-suc (pos zero) = (9, refl)
max_of-suc (pos (suc n)) = (n, refl)
max_of-suc (negsuc n) = (9, refl)

module _ (s : Service) (w : IsWellFormed s) (o c : String) (k : ℕ) where
  abbrev read : List Event
  read = take (suc k) (pending s o c)

  mem_consume_lem : (mem_consume s o c (suc k)).1 ≡ read
  unfolding mem_consume
  mem_consume_lem =
      read_loop_lem (s.offs o c) (suc k) k 1 (s.offs o c) [] (s.mem o) (w o).0 (ground arith)
        (ground arith)

  read-last : (e : Event) → last? read ≡ some e → e.id ≡ s.offs o c + length read
  read-last e h = ground (
    arith,
    Numbered-last (λ a. a.id) (1 + s.offs o c) read e
        (Numbered-take (1 + s.offs o c) (suc k) (pending s o c)
          (Numbered-drop 1 (s.offs o c) (s.mem o) (w o).0 ((w o).1 c)))
        h,
  )

  length-read : s.offs o c + length read ≤ length (s.mem o)
  length-read =
      ground
        (arith, (w o).1 c, length-take (suc k) (pending s o c), length-drop (s.offs o c) (s.mem o))

last?-none {ℓ} : {A : Type ℓ} (xs : List A) → last? xs ≡ none → length xs ≡ 0
last?-none [] h = refl
last?-none (x ∷ []) h = absurd (ground arith)
last?-none (x ∷ y ∷ xs) h = absurd (ground (arith, last?-none (y ∷ xs) h))

-- The offset that is moved is the consumer's own, to the id of the last event read.
move_offset_own :
    (s : Service) (o c : String) (l : List Event)
    → ((e : Event) → last? l ≡ some e → e.id ≡ s.offs o c + length l)
    → (move_offset s o c (last? l)).offs o c ≡ s.offs o c + length l
unfolding move_offset
move_offset_own s o c l h = elim (Option-cases (last? l)) [
  | inl e ↦ rw (e, move_offset) (ground (arith, last?-none l e))
  | inr (x, e) ↦ rw (e, move_offset, eq_refl o, eq_refl c) (h x e)
]

pub move_offset_object :
    (s : Service) (o c j d : String) (m : Option Event)
    → (o =ˢ j) ≡ false
    → (move_offset s o c m).offs j d ≡ s.offs j d
unfolding move_offset
move_offset_object s o c j d none h = refl
move_offset_object s o c j d (some e) h = rw h refl

pub move_offset_consumer :
    (s : Service) (o c d : String) (m : Option Event)
    → (c =ˢ d) ≡ false
    → (move_offset s o c m).offs o d ≡ s.offs o d
unfolding move_offset
move_offset_consumer s o c d none h = refl
move_offset_consumer s o c d (some e) h = rw (eq_refl o, h) refl

pub move_offset_mem :
    (s : Service) (o c : String) (m : Option Event) → (move_offset s o c m).mem ≡ s.mem
unfolding move_offset
move_offset_mem s o c none = refl
move_offset_mem s o c (some e) = refl

-- The state after a Consume in memory, by what it read.
abbrev pub consumed : Service → String → String → ℕ → Service
consumed s o c k = move_offset s o c (last? (take (suc k) (pending s o c)))

pub mem_consume-consumed :
    (s : Service)
    → IsWellFormed s
    → (o c : String) (k : ℕ)
    → mem_consume s o c (suc k) ≡ (consumed s o c k, take (suc k) (pending s o c))
unfolding mem_consume
mem_consume-consumed s w o c k =
    ap (λ l. (move_offset s o c (last? l), l)) (mem_consume_lem s w o c k)

pub pending_mem :
    (s : Service) (o c j d : String) (m : Option Event) (n : ℕ)
    → (move_offset s o c m).offs j d ≡ n
    → pending (move_offset s o c m) j d ≡ drop n (s.mem j)
pending_mem s o c j d m n e =
    ap (λ i. drop i ((move_offset s o c m).mem j)) e
    ∙ ap (λ f. drop n (f j)) (move_offset_mem s o c m)

offset_own :
    (s : Service)
    → IsWellFormed s
    → (o c : String) (k : ℕ)
    → (consumed s o c k).offs o c ≡ s.offs o c + length (take (suc k) (pending s o c))
offset_own s w o c k = move_offset_own s o c (take (suc k) (pending s o c)) (read-last s w o c k)

pub consumed_own :
    (s : Service)
    → IsWellFormed s
    → (o c : String) (k : ℕ)
    → take (suc k) (pending s o c) ++ pending (consumed s o c k) o c ≡ pending s o c
consumed_own s w o c k =
    let l = take (suc k) (pending s o c) in
    ap (λ r. l ++ r)
      (pending_mem s o c o c (last? l) _ (offset_own s w o c k)
        ∙ sym (drop-drop (s.offs o c) (length l) _ (s.mem o) refl))
    ∙ take-drop-length (suc k) (pending s o c)

pub consumed-IsWellFormed :
    (s : Service) → IsWellFormed s → (o c : String) (k : ℕ) → IsWellFormed (consumed s o c k)
consumed-IsWellFormed s w o c k j =
    let l = take (suc k) (pending s o c) in
    let same : (consumed s o c k).mem j ≡ s.mem j =
      ap (λ f. f j) (move_offset_mem s o c (last? l)) in
    subst
      (λ events.
        Numbered (λ e. e.id) 1 events
        × ((d : String) → (consumed s o c k).offs j d ≤ length events))
      (sym same)
      (
        (w j).0,
        λ d. elim (Bool-cases (o =ˢ j)) [
          | inr away ↦ ground (arith, (w j).1 d, move_offset_object s o c j d (last? l) away)
          | inl here ↦
              subst (λ i. (consumed s o c k).offs i d ≤ length (s.mem i)) ((eq_iff o j).0 here)
                (elim (Bool-cases (c =ˢ d)) [
                  | inr away ↦
                      ground (arith, (w o).1 d, move_offset_consumer s o c d (last? l) away)
                  | inl mine ↦
                      subst (λ a. (consumed s o c k).offs o a ≤ length (s.mem o))
                        ((eq_iff c d).0 mine)
                        (ground (arith, offset_own s w o c k, length-read s w o c k))
                ])
        ],
      )

pub produced_own :
    (s : Service)
    → IsWellFormed s
    → (o c : String) (now : ℕ) (p : Fields)
    → pending (mem_produce s o now p).0 o c ≡ pending s o c ++ (mem_produce s o now p).1 ∷ []
unfolding mem_produce
produced_own s w o c now p = rw (eq_refl o) (drop-append (s.offs o c) (s.mem o) _ ((w o).1 c))

pub produced-IsWellFormed :
    (s : Service)
    → IsWellFormed s
    → (o : String) (now : ℕ) (p : Fields) → IsWellFormed (mem_produce s o now p).0
unfolding mem_produce
produced-IsWellFormed s w o now p j = elim (Bool-cases (o =ˢ j)) [
  | inr away ↦ rw away (w j)
  | inl here ↦ rw here (
      subst
        (λ i.
          Numbered (λ e. e.id) 1 (s.mem o ++ (mem_produce s o now p).1 ∷ [])
          × ((d : String) → s.offs i d ≤ length (s.mem o ++ (mem_produce s o now p).1 ∷ [])))
        ((eq_iff o j).0 here)
        (
          Numbered-append (λ e. e.id) 1 (s.mem o) (mem_produce s o now p).1 (w o).0 (ground arith),
          λ d. ground (arith, (w o).1 d, length-append (s.mem o) ((mem_produce s o now p).1 ∷ [])),
        ))
]
