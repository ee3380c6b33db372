-- ===== src/SecureBus/Service/Consume/Loop.antt =====
-- The delivery loop: its induction principle, and what holds of the messages it delivers and of the
-- events it passes.
use synamcps_server.Prelude.{
  ℕ, ◌≤◌, ◌<◌, Bool, true, false, Option, none, some, List, [], ◌∷◌, ◌++◌, ◌≡◌, inl, inr, refl, sym,
  ap, ◌∙◌, subst, arith, length, find?-test, leb, ◌==◌, ==_iff, Bool-cases, Option-cases,
  length-append,
}
use synamcps_server.SecureBus.Service.{Message, Event}
use synamcps_server.SecureBus.Service.Consume.{
  find_msg, Progress, has_id, to_deliver, deliver, consume_events,
}

module _ (matches : Message → Bool) (msgs : List Message) where
  -- The messages of a delivery: each one the consumer had not had before, a message of the topic,
  -- that matches; and what the consumer has had then.
  abbrev pub Fresh : List ℕ → List Message → List ℕ → Type 0
  Fresh done [] after = after ≡ done
  Fresh done (m ∷ ms) after =
      (has_id done m.id ≡ false)
      × (find_msg msgs m.id ≡ some m)
      × (matches m ≡ true)
      × Fresh (m.id ∷ done) ms after

  pub to_deliver-some :
      (done : List ℕ) (id : ℕ) (m : Message)
      → to_deliver matches msgs done id ≡ some m
      → (has_id done id ≡ false) × (find_msg msgs id ≡ some m) × (matches m ≡ true)
  unfolding to_deliver
  to_deliver-some done id m h = elim (Bool-cases (has_id done id)) [
    | inl had ↦ absurd (no_message (rw had at h))
    | inr fresh ↦ elim (Option-cases (find_msg msgs id)) [
      | inl missing ↦ absurd (no_message (rw (fresh, missing) at h))
      | inr (k, found) ↦ elim (Bool-cases (matches k)) [
        | inl good ↦
            let same : k ≡ m = some_of (rw (fresh, found, good) at h) in
            (fresh, found ∙ ap some same, subst (λ x. matches x ≡ true) same good)
        | inr bad ↦ absurd (no_message (rw (fresh, found, bad) at h))
      ]
    ]
  ]
    where
      no_message : ◌≡◌ {A = Option Message} none (some m) → ⊥
      no_message e = ground arith

      some_of : {k : Message} → some k ≡ some m → k ≡ m
      some_of {k} e = ap (λ o. elim o [ none ↦ k | some x ↦ x ]) e

  pub to_deliver-none :
      (done : List ℕ) (id : ℕ) (m : Message)
      → to_deliver matches msgs done id ≡ none
      → find_msg msgs id ≡ some m
      → matches m ≡ true
      → has_id done id ≡ true
  unfolding to_deliver
  to_deliver-none done id m h found good = elim (Bool-cases (has_id done id)) [
    | inl had ↦ had
    | inr fresh ↦ absurd (no_message (rw (fresh, found, good) at h))
  ]
    where
      no_message : ◌≡◌ {A = Option Message} (some m) none → ⊥
      no_message e = ground arith

  pub find_msg-id : (id : ℕ) (m : Message) → find_msg msgs id ≡ some m → m.id ≡ id
  unfolding find_msg
  find_msg-id id m h = (==_iff m.id id).0 (find?-test (λ x. x.id == id) msgs m h)

  -- A delivery goes on from where it stands.
  abbrev pub Goes : Progress → Progress → Type 0
  Goes p q =
      (p.last ≤ q.last) × (new : List Message) × (q.out ≡ p.out ++ new) × Fresh p.done new q.done

  same_out : (p : Progress) → p.out ≡ p.out ++ []
  same_out p = append_nil p.out
    where
      append_nil : (xs : List Message) → xs ≡ xs ++ []
      append_nil [] = refl
      append_nil (x ∷ xs) = ap (λ l. x ∷ l) (append_nil xs)

  append_one :
      (xs : List Message) (m : Message) (ms : List Message) → (xs ++ m ∷ []) ++ ms ≡ xs ++ m ∷ ms
  append_one [] m ms = refl
  append_one (x ∷ xs) m ms = ap (λ l. x ∷ l) (append_one xs m ms)

  deliver-Goes :
      (p q : Progress) (ev : Event) (m : Message)
      → p.last < ev.id
      → to_deliver matches msgs p.done ev.message_id ≡ some m
      → Goes (deliver p ev.id m) q
      → Goes p q
  unfolding deliver
  deliver-Goes p q ev m lt h (le, new, out, fresh) =
      let (had, found, good) = to_deliver-some p.done ev.message_id m h in
      let id : m.id ≡ ev.message_id = find_msg-id ev.message_id m found in
      (
        omega (arith, lt, le),
        m ∷ new,
        out ∙ append_one p.out m new,
        (
          subst (λ j. has_id p.done j ≡ false) (sym id) had,
          subst (λ j. find_msg msgs j ≡ some m) (sym id) found,
          good,
          fresh,
        ),
      )

  module _ (max : ℕ) where
    -- the induction principle of the loop: one case for each way through its body
    pub consume_events-ind {κ} :
        (P : List Event → Progress → Progress → Type κ)
        → ((p : Progress) → P [] p p)
        → ((ev : Event) (evs : List Event) (p q : Progress)
            → ev.id ≤ p.last
            → P evs p q
            → P (ev ∷ evs) p q)
        → ((ev : Event) (evs : List Event) (p q : Progress)
            → p.last < ev.id
            → to_deliver matches msgs p.done ev.message_id ≡ none
            → P evs (record p { last = ev.id }) q
            → P (ev ∷ evs) p q)
        → ((ev : Event) (evs : List Event) (p : Progress) (m : Message)
            → p.last < ev.id
            → to_deliver matches msgs p.done ev.message_id ≡ some m
            → max ≤ length (deliver p ev.id m).out
            → P (ev ∷ evs) p (deliver p ev.id m))
        → ((ev : Event) (evs : List Event) (p q : Progress) (m : Message)
            → p.last < ev.id
            → to_deliver matches msgs p.done ev.message_id ≡ some m
            → length (deliver p ev.id m).out < max
            → P evs (deliver p ev.id m) q
            → P (ev ∷ evs) p q)
        → (evs : List Event) (p : Progress) → P evs p (consume_events matches msgs max evs p)
    unfolding consume_events
    consume_events-ind P at_end old nothing full room [] p = at_end p
    consume_events-ind P at_end old nothing full room (ev ∷ evs) p =
        let go : (q : Progress) → P evs q (consume_events matches msgs max evs q) =
          λ q. consume_events-ind P at_end old nothing full room evs q in
        elim (Bool-cases (leb ev.id p.last)) [
          | inl passed ↦ rw (passed, consume_events) (old ev evs p _ (ground arith) (go p))
          | inr new ↦ elim (Option-cases (to_deliver matches msgs p.done ev.message_id)) [
            | inl none_there ↦
                rw (new, none_there, consume_events)
                  (nothing ev evs p _ (ground arith) none_there (go (record p { last = ev.id })))
            | inr (m, there) ↦ elim (Bool-cases (leb max (length (deliver p ev.id m).out))) [
              | inl at_max ↦
                  rw (new, there, at_max, consume_events)
                    (full ev evs p m (ground arith) there (ground arith))
              | inr below ↦
                  rw (new, there, below, consume_events)
                    (room ev evs p _ m (ground arith) there (ground arith) (go (deliver p ev.id m)))
            ]
          ]
        ]

    pub consume_events-Goes :
        (evs : List Event) (p : Progress) → Goes p (consume_events matches msgs max evs p)
    consume_events-Goes =
        consume_events-ind (λ evs p q. Goes p q) (λ p. (omega arith, [], same_out p, refl))
          (λ ev evs p q le rest. rest)
          (λ ev evs p q lt nothing (le, new, out, fresh). (omega (arith, lt, le), new, out, fresh))
          (λ ev evs p m lt there full.
            deliver-Goes p (deliver p ev.id m) ev m lt there
              (unfold deliver in omega arith, [], same_out (deliver p ev.id m), refl))
          (λ ev evs p q m lt there room rest. deliver-Goes p q ev m lt there rest)

    pub consume_events-bound :
        (evs : List Event) (p : Progress)
        → length p.out < max
        → length (consume_events matches msgs max evs p).out ≤ max
    consume_events-bound =
        consume_events-ind (λ evs p q. length p.out < max → length q.out ≤ max)
          (λ p h. omega (arith, h)) (λ ev evs p q le rest h. rest h)
          (λ ev evs p q lt nothing rest h. rest h)
          (λ ev evs p m lt there full h.
            unfold deliver in rw (length-append p.out (m ∷ [])) (omega (arith, h)))
          (λ ev evs p q m lt there room rest h. rest room)
