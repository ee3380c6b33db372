-- ===== src/SecureBus/Service/Policies.antt =====
-- What the policy that an operation works under is.
use mathlib.Core.List.{Memᴰ}
use synamcps_server.Prelude.{
  ℕ, suc, ◌+◌, ◌≤◌, ◌==◌, String, true, Option, none, some, List, [], ◌∷◌, ◌++◌, ◌≡◌, ◌⊎◌, inl, inr,
  refl, ap, subst, arith, last?, find?-test, find?-mem, Bool-cases, eq_iff,
}
use synamcps_server.Prelude.Strings.{◌=ˢ◌}
use synamcps_server.Prelude.Numbered.{Numbered, Numbered-at_end, Numbered-before_end}
use synamcps_server.Prelude.Ints.{ℤ, pos, negsuc, is_nat}
use synamcps_server.Policy.{Scope}
use synamcps_server.SecureBus.Service.{
  SignedPolicy, Service, Env, Result, ok, err, BusError, found, topic_of, get_policy,
  current_policy, load_policy_version, accept_policy_version,
}
use synamcps_server.SecureBus.Service.Publish.{named_policy}

-- The topic's policies end with the current one, and the policy is that one, named with its hash or
-- without any, or the one before it while the current one is in its grace.
abbrev pub InForce : Env → Service → String → ℤ → String → SignedPolicy → Type 0
InForce env s o version hash p =
    (earlier : List SignedPolicy) × (cur : SignedPolicy) × (s.policies o ≡ earlier ++ cur ∷ [])
    × (version ≡ pos p.version)
    × (((p ≡ cur) × ((hash ≡ "") ⊎ (hash ≡ cur.hash)))
        ⊎ ((last? earlier ≡ some p) × (env.now ≤ cur.created_at + env.grace)))

not_ok {ℓ} : {A : Type ℓ} (e : BusError) (a : A) → ◌≡◌ {A = Result A} (err e) (ok a) → ⊥
not_ok e a h = ground arith

ok_inj {ℓ} : {A : Type ℓ} (a b : A) → ◌≡◌ {A = Result A} (ok a) (ok b) → a ≡ b
ok_inj a b h = ap (λ r. elim r [ ok x ↦ x | err e ↦ a ]) h

found-ok {ℓ} : {A : Type ℓ} (o : Option A) (a : A) → found o ≡ ok a → o ≡ some a
unfolding found
found-ok none a h = absurd (not_ok _ a h)
found-ok (some b) a h = ap some (ok_inj b a h)

load-version :
    (s : Service) (o : String) (version : ℤ) (p : SignedPolicy)
    → load_policy_version s o version ≡ ok p
    → Memᴰ p (s.policies o) × (is_nat version p.version ≡ true)
unfolding load_policy_version
load-version s o version p h =
    let at_version = found-ok _ p h in
    (
      find?-mem (λ sp. is_nat version sp.version) (s.policies o) p at_version,
      find?-test (λ sp. is_nat version sp.version) (s.policies o) p at_version,
    )

last?-split :
    (xs : List SignedPolicy) (x : SignedPolicy)
    → last? xs ≡ some x
    → (ys : List SignedPolicy) × (xs ≡ ys ++ x ∷ [])
last?-split [] x e = absurd (ground arith)
last?-split (y ∷ []) x e = ([], ap (λ a. a ∷ []) (ground arith))
last?-split (y ∷ z ∷ zs) x e =
    let (ys, split) = last?-split (z ∷ zs) x e in (y ∷ ys, ap (λ a. y ∷ a) split)

current-last :
    (s : Service) (scope : Option Scope) (o : String) (cur : SignedPolicy)
    → topic_of scope ≡ some o
    → current_policy s scope ≡ ok cur
    → last? (s.policies o) ≡ some cur
unfolding current_policy get_policy
current-last s scope o cur top h = found-ok _ cur (rw (top, current_policy, get_policy) at h)

is_nat-pos : (version : ℤ) (n : ℕ) → is_nat version n ≡ true → version ≡ pos n
is_nat-pos (pos v) n h = ap pos (ground arith)
is_nat-pos (negsuc v) n h = absurd (ground arith)

-- a version that is accepted is the current one or the one before
accepted :
    (env : Env) (cur : SignedPolicy) (version : ℕ) (hash : String)
    → accept_policy_version env cur (pos version) hash ≡ true
    → ((version ≡ cur.version) × ((hash ≡ "") ⊎ (hash ≡ cur.hash)))
      ⊎ ((suc version ≡ cur.version) × (env.now ≤ cur.created_at + env.grace))
unfolding accept_policy_version
accepted env cur version hash h = elim (Bool-cases (version == cur.version)) [
  | inl same ↦ elim (Bool-cases (hash =ˢ "")) [
    | inl none_given ↦ inl (ground arith, inl ((eq_iff hash "").0 none_given))
    | inr given ↦ elim (Bool-cases (hash =ˢ cur.hash)) [
      | inl its ↦ inl (ground arith, inr ((eq_iff hash cur.hash).0 its))
      | inr differs ↦ absurd (ground arith)
    ]
  ]
  | inr away ↦ inr (ground arith, ground arith)
]

accepted-InForce :
    (env : Env) (s : Service) (o : String) (version : ℤ) (hash : String) (cur p : SignedPolicy)
    → Numbered (λ (a : SignedPolicy). a.version) 1 (s.policies o)
    → last? (s.policies o) ≡ some cur
    → Memᴰ p (s.policies o)
    → version ≡ pos p.version
    → accept_policy_version env cur version hash ≡ true
    → InForce env s o version hash p
accepted-InForce env s o version hash cur p numbered last mem named good =
    let (earlier, split) = last?-split (s.policies o) cur last in
    let numbered' = subst (Numbered (λ (a : SignedPolicy). a.version) 1) split numbered in
    let mem' = subst (λ ps. Memᴰ p ps) split mem in
    let good' = subst (λ v. accept_policy_version env cur v hash ≡ true) named good in
    (
      earlier,
      cur,
      split,
      named,
      elim (accepted env cur p.version hash good') [
        | inl (same, hash_ok) ↦ inl (
          Numbered-at_end (λ (a : SignedPolicy). a.version) 1 earlier cur p numbered' mem' same,
          hash_ok,
        )
        | inr (before, in_grace) ↦ inr (
          Numbered-before_end (λ (a : SignedPolicy). a.version) 1 earlier cur p numbered' mem'
              before,
          in_grace,
        )
      ],
    )

-- The policy that a publication or an attestation on a topic works under has the version that the
-- caller named. Where the topic's versions count from 1 in order, it is the last policy of that
-- topic, and the caller named its hash or none; or it is the one before the last of that topic,
-- within the grace of the last.
pub named_policy-InForce :
    (env : Env) (s : Service) (scope : Option Scope) (o : String) (version : ℤ) (hash : String)
    (p : SignedPolicy)
    → topic_of scope ≡ some o
    → Numbered (λ (a : SignedPolicy). a.version) 1 (s.policies o)
    → named_policy env s scope o version hash ≡ ok p
    → InForce env s o version hash p
unfolding named_policy
named_policy-InForce env s scope o version hash p top numbered h = go (current_policy s scope) refl
  where
    go : (r : Result SignedPolicy) → current_policy s scope ≡ r → InForce env s o version hash p
    go (err e) c = absurd (not_ok e p (rw (c, named_policy) at h))
    go (ok cur) c = elim (Bool-cases (accept_policy_version env cur version hash)) [
      | inl good ↦
          let (mem, at_version) = load-version s o version p (rw (c, good, named_policy) at h) in
          accepted-InForce env s o version hash cur p numbered (current-last s scope o cur top c)
            mem (is_nat-pos version p.version at_version) good
      | inr stale ↦ absurd (not_ok _ p (rw (c, stale, named_policy) at h))
    ]
