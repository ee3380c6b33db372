-- ===== src/McpProxy/Names/Slugs.antt =====
-- The shape of a slug: runs of lower-case letters and digits with single dashes between them.
use synamcps_server.Prelude.{
  ℕ, Bool, true, false, some, [], ◌∷◌, ◌++◌, ◌≡◌, ◌≢◌, refl, arith, ◌&&◌, ◌||◌, not, if◌then◌else◌,
  is_empty, all, ◌==◌, map, Bool-cases, ◌⊎◌, inl, inr,
}
use synamcps_server.Prelude.Strings.{Runes}
use synamcps_server.Prelude.Runes.{to_lower, trim_left, trim_right, trim_space}
use synamcps_server.McpProxy.Names.{
  dash, slash, slug_rune, slug_step, slug_loop, slugify, trim_prefix, namespaced_tool,
  parse_namespaced_tool, namespaced_resource_uri, parse_namespaced_resource_uri,
}
use synamcps_server.McpProxy.Names.Laws.{
  Without, parse_namespaced_tool-namespaced_tool,
  parse_namespaced_resource_uri-namespaced_resource_uri,
}

-- a letter, a digit or a dash
abbrev pub slug_or_dash : ℕ → Bool
slug_or_dash r = slug_rune r || r == dash

pub no_double : Runes → Bool
no_double [] = true
no_double (c ∷ []) = true
no_double (c ∷ d ∷ s) = not (c == dash && d == dash) && no_double (d ∷ s)

abbrev pub starts_dash : Runes → Bool
starts_dash [] = false
starts_dash (c ∷ s) = c == dash

pub ends_dash : Runes → Bool
ends_dash [] = false
ends_dash (c ∷ []) = c == dash
ends_dash (c ∷ d ∷ s) = ends_dash (d ∷ s)

-- Letters and digits with single dashes between them.
abbrev pub IsSlug : Runes → Type 0
IsSlug s =
    (all slug_or_dash s ≡ true)
    × (no_double s ≡ true)
    × (starts_dash s ≡ false)
    × (ends_dash s ≡ false)

abbrev Writing : Runes × Bool → Type 0
Writing (out, prev_dash) =
    (all slug_or_dash out ≡ true)
    × (no_double out ≡ true)
    × (starts_dash out ≡ false)
    × (ends_dash out ≡ prev_dash)

all-end :
    (out : Runes) (r : ℕ)
    → all slug_or_dash (out ++ r ∷ []) ≡ (all slug_or_dash out && slug_or_dash r)
all-end [] r = ground arith
all-end (c ∷ out) r = ground (arith, all-end out r)

no_double-end :
    (out : Runes) (r : ℕ)
    → no_double (out ++ r ∷ []) ≡ (no_double out && not (ends_dash out && r == dash))
unfolding no_double ends_dash
no_double-end [] r = ground arith
no_double-end (c ∷ []) r = ground arith
no_double-end (c ∷ d ∷ out) r = ground (arith, no_double-end (d ∷ out) r)

ends_dash-end : (out : Runes) (r : ℕ) → ends_dash (out ++ r ∷ []) ≡ (r == dash)
unfolding ends_dash
ends_dash-end [] r = refl
ends_dash-end (c ∷ []) r = refl
ends_dash-end (c ∷ d ∷ out) r = ends_dash-end (d ∷ out) r

starts_dash-end :
    (out : Runes) (r : ℕ)
    → starts_dash (out ++ r ∷ []) ≡ (if is_empty out then r == dash else starts_dash out)
starts_dash-end [] r = refl
starts_dash-end (c ∷ out) r = refl

slug_step-Writing : (r : ℕ) (state : Runes × Bool) → Writing state → Writing (slug_step r state)
unfolding slug_step
slug_step-Writing r (out, prev) (chars, single, start, end) = ground (
  arith,
  all-end out r,
  all-end out dash,
  no_double-end out r,
  no_double-end out dash,
  ends_dash-end out r,
  ends_dash-end out dash,
  starts_dash-end out r,
  starts_dash-end out dash,
)

slug_loop-Writing : (s : Runes) (state : Runes × Bool) → Writing state → Writing (slug_loop s state)
unfolding slug_loop
slug_loop-Writing [] state w = w
slug_loop-Writing (r ∷ s) state w =
    slug_loop-Writing s (slug_step r state) (slug_step-Writing r state w)

abbrev is_dash : ℕ → Bool
is_dash r = r == dash

trim_left-same : (s : Runes) → starts_dash s ≡ false → trim_left is_dash s ≡ s
unfolding trim_left
trim_left-same [] h = refl
trim_left-same (c ∷ s) h = rw h refl

no_double-cons :
    (c : ℕ) (s : Runes) → no_double (c ∷ s) ≡ (not (c == dash && starts_dash s) && no_double s)
unfolding no_double
no_double-cons c [] = ground arith
no_double-cons c (d ∷ s) = refl

-- What dropping the dashes at the end leaves.
abbrev Trimmed : Runes → Runes → Type 0
Trimmed s t =
    (all slug_or_dash s ≡ true → all slug_or_dash t ≡ true)
    × (no_double s ≡ true → no_double t ≡ true)
    × (ends_dash t ≡ false)
    × (starts_dash s ≡ false → starts_dash t ≡ false)
    × ((is_empty t ≡ true) ⊎ (starts_dash t ≡ starts_dash s))

trim_step :
    (c : ℕ) (s t : Runes)
    → Trimmed s t
    → Trimmed (c ∷ s) (elim t [ [] ↦ if is_dash c then [] else c ∷ [] | d ∷ ds ↦ c ∷ d ∷ ds ])
unfolding no_double ends_dash
trim_step c s [] (chars, single, end, start, same) = elim (Bool-cases (c == dash)) [
  | inl dashed ↦ rw dashed (λ h. refl, λ h. refl, refl, λ h. refl, inl refl)
  | inr other ↦ rw other (λ h. ground arith, λ h. refl, other, λ h. other, inr other)
]
trim_step c s (d ∷ ds) (chars, single, end, start, same) = (
  λ h. ground (arith, chars),
  λ h. ground (arith, single, no_double-cons c s, same),
  end,
  λ h. h,
  inr refl,
)

trim_right-Trimmed : (s : Runes) → Trimmed s (trim_right is_dash s)
unfolding trim_right no_double ends_dash
trim_right-Trimmed [] = (λ h. h, λ h. h, refl, λ h. h, inl refl)
trim_right-Trimmed (c ∷ s) = trim_step c s (trim_right is_dash s) (trim_right-Trimmed s)

-- A slug made of any text is letters and digits with single dashes between them, or empty.
pub slugify-IsSlug : (s : Runes) → IsSlug (slugify s)
unfolding slugify
slugify-IsSlug s =
    let written = slug_loop (map to_lower (trim_space s)) ([], false) in
    let (chars, single, start, end) : Writing written =
      slug_loop-Writing (map to_lower (trim_space s)) ([], false)
        (refl, unfold no_double in refl, refl, unfold ends_dash in refl) in
    let (chars_t, single_t, end_t, start_t, same) = trim_right-Trimmed written.0 in
    rw (trim_left-same written.0 start) (chars_t chars, single_t single, start_t start, end_t)

slug_rune-plain : (r : ℕ) → slug_or_dash r ≡ true → ((r == b'_') ≡ false) × ((r == b'/') ≡ false)
slug_rune-plain r h = ground arith

-- A slug has neither of the separators of the namespaced names.
pub IsSlug-Without : (s : Runes) → IsSlug s → Without b'_' s × Without b'/' s
IsSlug-Without s (chars, single, start, end) = plain s chars
  where
    plain : (t : Runes) → all slug_or_dash t ≡ true → Without b'_' t × Without b'/' t
    plain [] h = (refl, refl)
    plain (c ∷ t) h =
        (ground (arith, slug_rune-plain c, plain t), ground (arith, slug_rune-plain c, plain t))

-- Where a slug that is made of a text is not empty, and the tool's name is not either, the
-- namespaced name of the tool gives back the slug and the tool; and where the URI is more than one
-- slash, the namespaced URI gives back the slug and the URI less a slash that it begins with. (So a
-- URI with such a slash and one without get the same name.)
pub slugify_namespaced :
    (text tool uri : Runes)
    → slugify text ≢ []
    → tool ≢ []
    → trim_prefix uri slash ≢ []
    → (parse_namespaced_tool (namespaced_tool (slugify text) tool) ≡ some (slugify text, tool))
      × (parse_namespaced_resource_uri (namespaced_resource_uri (slugify text) uri)
          ≡ some (slugify text, trim_prefix uri slash))
slugify_namespaced text tool uri some_slug some_tool some_uri =
    let (underscores, slashes) = IsSlug-Without (slugify text) (slugify-IsSlug text) in
    (
      parse_namespaced_tool-namespaced_tool (slugify text) tool underscores some_slug some_tool,
      parse_namespaced_resource_uri-namespaced_resource_uri (slugify text) uri slashes some_slug
          some_uri,
    )
