-- ===== src/OAuth/Redirects/Globs.antt =====
-- What it means that a text matches a pattern, or one of some.
use synamcps_server.Prelude.{
  ℕ, String, Bool, true, false, some, List, [], ◌∷◌, ◌++◌, last?, last?-append, any, ◌≡◌, ◌↔◌, ◌⊎◌,
  inl, inr, refl, ap, subst, Bool-cases, Option-cases, arith, ◌||◌,
}
use synamcps_server.Prelude.Strings.{Runes, codes}
use synamcps_server.Prelude.Runes.{has_prefix, has_prefix-append, ◌=ʳ◌, =ʳ-iff}
use synamcps_server.OAuth.Redirects.{ends_in_star, but_last, match_simple_glob, match_patterns}

-- A pattern is a star, the text itself, or a beginning of it with a star behind.
abbrev pub Matches : Runes → Runes → Type 0
Matches pattern value =
    ((prefix : Runes) × (rest : Runes) × (pattern ≡ prefix ++ b'*' ∷ []) × (value ≡ prefix ++ rest))
    ⊎ (pattern ≡ value)

has_prefix-rest :
    (s prefix : Runes) → has_prefix s prefix ≡ true → (rest : Runes) × (s ≡ prefix ++ rest)
unfolding has_prefix
has_prefix-rest s [] h = (s, refl)
has_prefix-rest [] (c ∷ prefix) h = cc
has_prefix-rest (d ∷ s) (c ∷ prefix) h =
    let (rest, e) = has_prefix-rest s prefix (ground arith) in (rest, ground arith)

without_last : (p : Runes) (c : ℕ) → last? p ≡ some c → p ≡ but_last p ++ c ∷ []
without_last [] c h = cc
without_last (x ∷ []) c h = ground arith
without_last (x ∷ y ∷ ys) c h = ap (λ l. x ∷ l) (without_last (y ∷ ys) c h)

but_last-append : (prefix : Runes) (c : ℕ) → but_last (prefix ++ c ∷ []) ≡ prefix
but_last-append [] c = refl
but_last-append (x ∷ []) c = refl
but_last-append (x ∷ y ∷ ys) c = ap (λ l. x ∷ l) (but_last-append (y ∷ ys) c)

ends_in_star-split : (p : Runes) → ends_in_star p ≡ true → p ≡ but_last p ++ b'*' ∷ []
ends_in_star-split p h = elim (Option-cases (last? p)) [
  | inl empty ↦ absurd (ground arith)
  | inr (c, last) ↦ without_last p b'*' (ground arith)
]

ends_in_star-append : (prefix : Runes) → ends_in_star (prefix ++ b'*' ∷ []) ≡ true
ends_in_star-append prefix = rw (ends_in_star, last?-append prefix b'*') refl

has_prefix-but_last : (p : Runes) → has_prefix p (but_last p) ≡ true
unfolding has_prefix
has_prefix-but_last [] = refl
has_prefix-but_last (x ∷ []) = refl
has_prefix-but_last (x ∷ y ∷ ys) = ground (arith, has_prefix-but_last (y ∷ ys))

glob-Matches :
    (pattern value : Runes) → match_simple_glob pattern value ≡ true → Matches pattern value
glob-Matches pattern value h = elim (Bool-cases (pattern =ʳ codes "*")) [
  | inl star ↦ inl ([], value, (=ʳ-iff pattern (codes "*")).0 star, refl)
  | inr other ↦ elim (Bool-cases (ends_in_star pattern)) [
    | inl ends ↦
        let (rest, e) = has_prefix-rest value (but_last pattern) (rw (other, ends) at h) in
        inl (but_last pattern, rest, ends_in_star-split pattern ends, e)
    | inr plain ↦ inr ((=ʳ-iff pattern value).0 (rw (other, plain) at h))
  ]
]

Matches-glob :
    (pattern value : Runes) → Matches pattern value → match_simple_glob pattern value ≡ true
Matches-glob pattern value (inl (prefix, rest, e, f)) =
    rw
      (e, f, ends_in_star-append prefix, but_last-append prefix b'*', has_prefix-append prefix rest)
      (ground arith)
Matches-glob pattern value (inr same) =
    let here : (pattern =ʳ value) ≡ true = (=ʳ-iff pattern value).1 same in
    let front : has_prefix value (but_last pattern) ≡ true =
      subst (λ v. has_prefix v (but_last pattern) ≡ true) same (has_prefix-but_last pattern) in
    ground arith

-- Patterns let a text through if there are none, or one that it matches.
abbrev pub MatchesOneOf : List String → String → Type 0
MatchesOneOf [] value = ⊥
MatchesOneOf (pattern ∷ rest) value =
    Matches (codes pattern) (codes value) ⊎ MatchesOneOf rest value

pub or_true : (a b : Bool) → ((a || b) ≡ true) ↔ ((a ≡ true) ⊎ (b ≡ true))
or_true true b = (λ h. inl refl, λ h. refl)
or_true false b = (λ h. inr h, λ h. elim h [ inl e ↦ cc | inr e ↦ e ])

any-MatchesOneOf :
    (patterns : List String) (value : String)
    → (any (λ pattern. match_simple_glob (codes pattern) (codes value)) patterns ≡ true)
      ↔ MatchesOneOf patterns value
any-MatchesOneOf [] value = (λ h. cc, λ h. absurd h)
any-MatchesOneOf (p ∷ ps) value =
    let either =
      or_true (match_simple_glob (codes p) (codes value))
        (any (λ pattern. match_simple_glob (codes pattern) (codes value)) ps) in
    (
      λ h. elim (either.0 h) [
        | inl here ↦ inl (glob-Matches (codes p) (codes value) here)
        | inr there ↦ inr ((any-MatchesOneOf ps value).0 there)
      ],
      λ m. elim m [
        | inl here ↦ either.1 (inl (Matches-glob (codes p) (codes value) here))
        | inr there ↦ either.1 (inr ((any-MatchesOneOf ps value).1 there))
      ],
    )

pub match_patterns_iff :
    (value : String) (patterns : List String)
    → (match_patterns value patterns ≡ true) ↔ ((patterns ≡ []) ⊎ MatchesOneOf patterns value)
unfolding match_patterns
match_patterns_iff value [] = (λ h. inl refl, λ h. refl)
match_patterns_iff value (p ∷ ps) =
    let listed = any-MatchesOneOf (p ∷ ps) value in
    (λ h. inr (listed.0 h), λ m. elim m [ inl empty ↦ cc | inr matched ↦ listed.1 matched ])
