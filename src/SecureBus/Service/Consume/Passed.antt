-- ===== src/SecureBus/Service/Consume/Passed.antt =====
-- The delivery loop passes no event by: what the events it has passed come to.
use mathlib.Core.List as List
use mathlib.Core.List.{Memᴰ}
use synamcps_server.Prelude.{
  ℕ, suc, ◌≤◌, ◌<◌, Bool, true, none, some, List, ◌∷◌, ◌≡◌, inl, inr, sym, ap, ◌∙◌, subst, arith,
  length,
}
use synamcps_server.Prelude.Numbered.{Numbered, Numbered-mem}
use synamcps_server.SecureBus.Service.{Message, Event}
use synamcps_server.SecureBus.Service.Consume.{
  find_msg, Progress, has_id, to_deliver, deliver, consume_events, start,
}
use synamcps_server.SecureBus.Service.Consume.Loop.{
  to_deliver-some, to_deliver-none, find_msg-id, consume_events-ind,
}

module _ (matches : Message → Bool) (msgs : List Message) where
  module _ (max : ℕ) where
    -- What the consumer had, it has after; and an event that was passed was handled.
    abbrev pub Handles : List Event → Progress → Progress → Type 0
    Handles evs p q =
        ((id : ℕ) → has_id p.done id ≡ true → has_id q.done id ≡ true)
        × ((start : ℕ)
            → Numbered (λ e. e.id) start evs
            → (e : Event) (m : Message) → Memᴰ e evs
            → p.last < e.id
            → e.id ≤ q.last
            → find_msg msgs e.message_id ≡ some m
            → matches m ≡ true
            → has_id q.done e.message_id ≡ true)

    Handles-old :
        (ev : Event) (evs : List Event) (p q : Progress)
        → ev.id ≤ p.last
        → Handles evs p q
        → Handles (ev ∷ evs) p q
    Handles-old ev evs p q le (mono, complete) = (
      mono,
      λ start n e m mem lt ge found good. elim (List.Memᴰ.cases_cons mem) [
        | inl same ↦ absurd (before e (ap (λ x. x.id) same) lt)
        | inr later ↦ complete (suc start) n.1 e m later lt ge found good
      ],
    )
      where
        before : (e : Event) → e.id ≡ ev.id → p.last < e.id → ⊥
        before e same lt = omega (arith, same, le, lt)

    Handles-none :
        (ev : Event) (evs : List Event) (p q : Progress)
        → to_deliver matches msgs p.done ev.message_id ≡ none
        → Handles evs (record p { last = ev.id }) q
        → Handles (ev ∷ evs) p q
    Handles-none ev evs p q nothing (mono, complete) = (
      mono,
      λ start n e m mem lt ge found good. elim (List.Memᴰ.cases_cons mem) [
        | inl same ↦
            let id : e.message_id ≡ ev.message_id = ap (λ x. x.message_id) same in
            mono e.message_id (
              subst (λ j. has_id p.done j ≡ true) (sym id)
                (to_deliver-none matches msgs p.done ev.message_id m nothing
                  (subst (λ j. find_msg msgs j ≡ some m) id found) good))
        | inr later ↦ complete (suc start) n.1 e m later (after start n e later) ge found good
      ],
    )
      where
        after :
            (start : ℕ)
            → Numbered (λ x. x.id) start (ev ∷ evs)
            → (e : Event) → Memᴰ e evs
            → ev.id < e.id
        after start n e later =
            omega (arith, n.0, Numbered-mem (λ x. x.id) (suc start) evs e n.1 later)

    Handles-some :
        (ev : Event) (evs : List Event) (p q : Progress) (m : Message)
        → to_deliver matches msgs p.done ev.message_id ≡ some m
        → ((id : ℕ) → has_id (deliver p ev.id m).done id ≡ true → has_id q.done id ≡ true)
        → ((start : ℕ)
            → Numbered (λ e. e.id) start evs
            → (e : Event) (k : Message) → Memᴰ e evs
            → ev.id < e.id
            → e.id ≤ q.last
            → find_msg msgs e.message_id ≡ some k
            → matches k ≡ true
            → has_id q.done e.message_id ≡ true)
        → Handles (ev ∷ evs) p q
    unfolding deliver
    Handles-some ev evs p q m there mono complete =
        let (had, found_m, good_m) = to_deliver-some matches msgs p.done ev.message_id m there in
        let id_m : m.id ≡ ev.message_id = find_msg-id matches msgs ev.message_id m found_m in
        (
          λ id had. mono id (ground arith),
          λ start n e k mem lt ge found good. elim (List.Memᴰ.cases_cons mem) [
            | inl same ↦ mono e.message_id (delivered e (id_m ∙ sym (ap (λ x. x.message_id) same)))
            | inr later ↦ complete (suc start) n.1 e k later (after start n e later) ge found good
          ],
        )
      where
        delivered : (e : Event) → m.id ≡ e.message_id → has_id (m.id ∷ p.done) e.message_id ≡ true
        delivered e same = ground arith

        after :
            (start : ℕ)
            → Numbered (λ x. x.id) start (ev ∷ evs)
            → (e : Event) → Memᴰ e evs
            → ev.id < e.id
        after start n e later =
            omega (arith, n.0, Numbered-mem (λ x. x.id) (suc start) evs e n.1 later)

    past : (a b : ℕ) (p : Progress) (m : Message) → a < b → b ≤ (deliver p a m).last → ⊥
    unfolding deliver
    past a b p m lt le = omega (arith, lt, le)

    pub consume_events-Handles :
        (evs : List Event) (p : Progress) → Handles evs p (consume_events matches msgs max evs p)
    consume_events-Handles =
        consume_events-ind matches msgs max Handles
          (λ p. (λ id h. h, λ start n e m mem lt ge found good. absurd (List.Memᴰ.not-nil mem)))
          (λ ev evs p q le rest. Handles-old ev evs p q le rest)
          (λ ev evs p q lt nothing rest. Handles-none ev evs p q nothing rest)
          (λ ev evs p m lt there full.
            Handles-some ev evs p (deliver p ev.id m) m there (λ id h. h)
              (λ start n e k mem gt ge found good. absurd (past ev.id e.id p m gt ge)))
          (λ ev evs p q m lt there room (mono, complete).
            Handles-some ev evs p q m there mono (unfold deliver in complete))

    both : (a b : ℕ) → a ≤ b → b < a → ⊥
    both a b le lt = omega arith

    abbrev pub Exhausts : List Event → Progress → Progress → Type 0
    Exhausts evs p q =
        (p.last ≤ q.last) × (length q.out < max → (e : Event) → Memᴰ e evs → e.id ≤ q.last)

    reaches :
        (ev : Event) (evs : List Event) (q : Progress)
        → ev.id ≤ q.last
        → ((e : Event) → Memᴰ e evs → e.id ≤ q.last)
        → (e : Event) → Memᴰ e (ev ∷ evs)
        → e.id ≤ q.last
    reaches ev evs q le rest e mem = elim (List.Memᴰ.cases_cons mem) [
      | inl same ↦ subst (λ i. i ≤ q.last) (sym (ap (λ x. x.id) same)) le
      | inr later ↦ rest e later
    ]

    pub consume_events-Exhausts :
        (evs : List Event) (p : Progress) → Exhausts evs p (consume_events matches msgs max evs p)
    consume_events-Exhausts =
        consume_events-ind matches msgs max Exhausts
          (λ p. (omega arith, λ less e mem. absurd (List.Memᴰ.not-nil mem)))
          (λ ev evs p q le (mono, all).
            (mono, λ less. reaches ev evs q (omega (arith, le, mono)) (all less)))
          (λ ev evs p q lt nothing (mono, all).
            (omega (arith, lt, mono), λ less. reaches ev evs q mono (all less)))
          (λ ev evs p m lt there full.
            (unfold deliver in omega (arith, lt), λ less. absurd (both _ _ full less)))
          (λ ev evs p q m lt there room (mono, all).
            let le : ev.id ≤ q.last = unfold deliver in mono in
            (omega (arith, lt, le), λ less. reaches ev evs q le (all less)))
