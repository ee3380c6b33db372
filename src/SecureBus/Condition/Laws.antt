-- ===== src/SecureBus/Condition/Laws.antt =====
-- What a condition with a quorum, a veto or named requirements demands of a message.
use synamcps_server.Prelude.{
  ℕ, ◌≤◌, String, Bool, true, false, Option, none, some, List, [], ◌∷◌, ◌≡◌, ◌≢◌, ◌⊎◌, inl, inr,
  refl, sym, ◌∙◌, ◌&&◌, not, is_empty, all, any, ltb, length, keep, arith, eq_iff, Bool-cases, All,
  &&_true,
}
use synamcps_server.Prelude.Strings.{◌=ˢ◌, contains}
use synamcps_server.Prelude.Ints.{ℤ, pos, negsuc}
use synamcps_server.Prelude.Maps.{Dict, lookup}
use synamcps_server.SecureBus.Document.{Condition, ConditionRequire}
use synamcps_server.SecureBus.Condition.{
  AttestationView, MessageView, latest_from, has_status, status_of, effective_mode, too_few,
  match_latest, match_deny, match_condition,
}
use synamcps_server.SecureBus.Condition.Latest.{
  last_status, lookup-latest_from, keys, Distinct, latest_from-Distinct, names_with,
  length-names_with, names_with-Distinct, names_with-lookup, any-names_with, lookup-any,
}

-- The last status of an agent in a list of attestations.
abbrev pub LastIs : List AttestationView → String → String → Type 0
LastIs atts agent status = last_status agent atts none ≡ some status

latest_iff :
    (atts : List AttestationView) (agent : String) (o : Option String)
    → lookup agent (latest_from [] atts) ≡ o
    → last_status agent atts none ≡ o
unfolding lookup
latest_iff atts agent o h = sym (lookup-latest_from agent atts []) ∙ h

-- At least `n` agents, all different, whose last attestation is `ok`.
abbrev pub Quorum : List AttestationView → ℕ → Type 0
Quorum atts n =
    (names : List String) × Distinct names
    × ((agent : String) → contains names agent ≡ true → LastIs atts agent "ok")
    × (n ≤ length names)

abbrev pub Minimum : List AttestationView → ℤ → Type 0
Minimum atts (pos n) = Quorum atts n
Minimum atts (negsuc n) = Unit

-- The status asked for is the agent's last one; an empty one is met, too, where there is none.
abbrev pub Required : List AttestationView → ConditionRequire → Type 0
Required atts r =
    (last_status r.agent atts none ≡ some r.status)
    ⊎ ((r.status ≡ "") × (last_status r.agent atts none ≡ none))

abbrev pub Denied : List AttestationView → Type 0
Denied atts = (agent : String) × LastIs atts agent "deny"

abbrev pub Statuses : Condition → List AttestationView → Option Bool → Type 0
Statuses cond atts (some true) = Denied atts
Statuses cond atts (some false) =
    ((agent : String) → last_status agent atts none ≢ some "deny")
    × All (Required atts) cond.require
    × Minimum atts cond.min_ok
Statuses cond atts none = All (Required atts) cond.require × Minimum atts cond.min_ok

-- What a message meets a condition by: an author it names, and the statuses.
abbrev pub Meets : Condition → MessageView → Type 0
Meets cond msg =
    ((cond.authors ≡ []) ⊎ (contains cond.authors msg.author_name ≡ true))
    × Statuses cond msg.attestations cond.any_deny

quorum :
    (atts : List AttestationView) (n : ℕ)
    → ltb (length (keep (has_status "ok") (latest_from [] atts))) n ≡ false
    → Quorum atts n
quorum atts n h =
    let latest = latest_from [] atts in
    let distinct : Distinct (keys latest) = latest_from-Distinct atts [] (unfold keys in tt) in
    (
      names_with "ok" latest,
      names_with-Distinct "ok" latest distinct,
      λ agent mem. latest_iff atts agent _ (names_with-lookup "ok" agent latest distinct mem),
      ground (arith, length-names_with "ok" latest),
    )

minimum :
    (atts : List AttestationView) (min_ok : ℤ)
    → too_few min_ok (length (keep (has_status "ok") (latest_from [] atts))) ≡ false
    → Minimum atts min_ok
minimum atts (pos n) h = quorum atts n h
minimum atts (negsuc n) h = tt

status_found :
    (found : Option String) (status : String)
    → ((elim found [ none ↦ "" | some st ↦ st ]) =ˢ status) ≡ true
    → (found ≡ some status) ⊎ ((status ≡ "") × (found ≡ none))
status_found none status h = inr (sym ((eq_iff "" status).0 h), refl)
status_found (some st) status h = inl (ground (arith, eq_iff st status))

last_status-Required :
    (atts : List AttestationView) (r : ConditionRequire) (found : Option String)
    → last_status r.agent atts none ≡ found
    → (found ≡ some r.status) ⊎ ((r.status ≡ "") × (found ≡ none))
    → Required atts r
last_status-Required atts r found last (inl met) = inl (last ∙ met)
last_status-Required atts r found last (inr (empty, absent)) = inr (empty, last ∙ absent)

required :
    (atts : List AttestationView) (require : List ConditionRequire)
    → all (λ r. status_of (latest_from [] atts) r.agent =ˢ r.status) require ≡ true
    → All (Required atts) require
required atts [] h = tt
required atts (r ∷ require) h =
    let (first, rest) = &&_true (status_of (latest_from [] atts) r.agent =ˢ r.status) _ h in
    (
      last_status-Required atts r (lookup r.agent (latest_from [] atts))
          (latest_iff atts r.agent _ refl)
          (status_found (lookup r.agent (latest_from [] atts)) r.status first),
      required atts require rest,
    )

match_latest-Meets :
    (cond : Condition) (mode : String) (atts : List AttestationView)
    → match_latest cond mode (latest_from [] atts) ≡ true
    → All (Required atts) cond.require × Minimum atts cond.min_ok
unfolding match_latest
match_latest-Meets cond mode atts h =
    elim (Bool-cases
      (all (λ r. status_of (latest_from [] atts) r.agent =ˢ r.status) cond.require)) [
        | inl ok ↦
            elim (Bool-cases
              (too_few cond.min_ok (length (keep (has_status "ok") (latest_from [] atts))))) [
                | inl few ↦ cc (rw (ok, few) at h)
                | inr enough ↦ (required atts cond.require ok, minimum atts cond.min_ok enough)
              ]
        | inr missing ↦ cc (rw missing at h)
      ]

denied :
    (atts : List AttestationView)
    → any (has_status "deny") (latest_from [] atts) ≡ true
    → Denied atts
denied atts h =
    let latest = latest_from [] atts in
    let distinct : Distinct (keys latest) = latest_from-Distinct atts [] (unfold keys in tt) in
    let (agent, mem) = any-names_with "deny" latest h in
    (agent, latest_iff atts agent _ (names_with-lookup "deny" agent latest distinct mem))

not_denied :
    (atts : List AttestationView) (agent : String)
    → any (has_status "deny") (latest_from [] atts) ≡ false
    → last_status agent atts none ≢ some "deny"
unfolding lookup
not_denied atts agent h e =
    cc (lookup-any "deny" agent (latest_from [] atts) (lookup-latest_from agent atts [] ∙ e), h)

match_deny-Meets :
    (cond : Condition) (mode : String) (atts : List AttestationView) (deny : Option Bool)
    → match_deny cond mode (latest_from [] atts) deny ≡ true
    → Statuses cond atts deny
unfolding match_deny
match_deny-Meets cond mode atts none h = match_latest-Meets cond mode atts h
match_deny-Meets cond mode atts (some true) h = denied atts h
match_deny-Meets cond mode atts (some false) h =
    elim (Bool-cases (any (has_status "deny") (latest_from [] atts))) [
      | inl vetoed ↦ cc (rw vetoed at h)
      | inr free ↦
          let (require, enough) = match_latest-Meets cond mode atts (rw free at h) in
          (λ agent. not_denied atts agent free, require, enough)
    ]

author_ok :
    (authors : List String) (name : String)
    → (not (is_empty authors) && not (contains authors name)) ≡ false
    → (authors ≡ []) ⊎ (contains authors name ≡ true)
author_ok [] name h = inl refl
author_ok (a ∷ authors) name h = inr (ground arith)

-- A message that matches is by an author the condition names, where it names any. Where denials are
-- asked for (any_deny is true), some agent's last word is a denial, and nothing more is asked. Else
-- every requirement's status is the last word of its agent (an empty status is met, too, by an agent
-- with none), at least min_ok different agents have `ok` as their last word, and where any_deny is
-- false, no agent's last word is a denial.
pub match_condition-Meets :
    (cond : Condition) (msg : MessageView) → match_condition cond msg ≡ true → Meets cond msg
unfolding match_condition
match_condition-Meets cond msg h =
    elim (Bool-cases (not (is_empty cond.authors) && not (contains cond.authors msg.author_name))) [
      | inl foreign ↦ cc (rw foreign at h)
      | inr known ↦ (
        author_ok cond.authors msg.author_name known,
        match_deny-Meets cond _ msg.attestations cond.any_deny (rw known at h),
      )
    ]

match_latest_modes :
    (cond : Condition) (mode other : String) (wanted : String) (latest : Dict String)
    → match_latest cond mode latest ≡ match_latest (record cond { mode = wanted }) other latest
unfolding match_latest
match_latest_modes cond mode other wanted latest = ground arith

match_deny_modes :
    (cond : Condition) (mode other wanted : String) (latest : Dict String) (deny : Option Bool)
    → match_deny cond mode latest deny
      ≡ match_deny (record cond { mode = wanted }) other latest deny
unfolding match_deny
match_deny_modes cond mode other wanted latest none =
    match_latest_modes cond mode other wanted latest
match_deny_modes cond mode other wanted latest (some true) = refl
match_deny_modes cond mode other wanted latest (some false) =
    ground (arith, match_latest_modes cond mode other wanted latest)

-- The mode of a condition, given or by default, has no effect on what matches.
pub match_condition_mode :
    (cond : Condition) (msg : MessageView) (mode : String)
    → match_condition cond msg ≡ match_condition (record cond { mode = mode }) msg
unfolding match_condition
match_condition_mode cond msg mode = ground (
  arith,
  match_deny_modes cond (effective_mode cond) (effective_mode (record cond { mode = mode })) mode
      (latest_from [] msg.attestations) cond.any_deny,
)
