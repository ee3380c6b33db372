-- ===== src/Prelude/Runes.antt =====
-- What the program uses of Go's `strings` and `unicode` on texts that it walks, as code points.
use Prim.Native.Nat.{ℕ, ◌+◌}
use Prim.Native.Char.{code}
use Prim.Native.String.{String}
use mathlib.Core.Bool.{Bool, true, false, ◌&&◌, ◌||◌}
use mathlib.Core.List.{[], ◌∷◌, ◌++◌}
use mathlib.Core.Path.{◌≡◌, refl}
use mathlib.Core.Logic.{◌↔◌}
use mathlib.Core.Option.{Option, none, some}
use native.Mathlib.Omega.{arith}
use synamcps_server.Prelude.Lists.{length, drop}
use synamcps_server.Prelude.Tests.{leb, ltb, ◌==◌, if◌then◌else◌}
use synamcps_server.Prelude.Strings.{Runes}

abbrev pub is_lower : ℕ → Bool
is_lower c = leb b'a' c && leb c b'z'

abbrev pub is_upper : ℕ → Bool
is_upper c = leb b'A' c && leb c b'Z'

abbrev pub is_digit : ℕ → Bool
is_digit c = leb b'0' c && leb c b'9'

-- `unicode.ToLower`, as far as the callers can tell: they test for ASCII alone, and the only
-- others whose lower case is an ASCII letter are U+0130 and the Kelvin sign U+212A.
abbrev pub to_lower : ℕ → ℕ
to_lower c =
    if is_upper c then c + 32 else if c == 0x130 then b'i' else if c == 0x212A then b'k' else c

-- `unicode.IsSpace`
abbrev pub is_space : ℕ → Bool
is_space c =
    (leb 9 c && leb c 13)
    || c == 32
    || c == 0x85
    || c == 0xA0
    || c == 0x1680
    || (leb 0x2000 c && leb c 0x200A)
    || c == 0x2028
    || c == 0x2029
    || c == 0x202F
    || c == 0x205F
    || c == 0x3000

-- the longest end that does not begin with a character that passes
unfoldable pub trim_left : (ℕ → Bool) → Runes → Runes
trim_left p [] = []
trim_left p (c ∷ s) = let rest = trim_left p s in if p c then rest else c ∷ s

-- the longest beginning that does not end with a character that passes
unfoldable pub trim_right : (ℕ → Bool) → Runes → Runes
trim_right p [] = []
trim_right p (c ∷ s) =
    let rest = trim_right p s in elim rest [ [] ↦ if p c then [] else c ∷ [] | d ∷ ds ↦ c ∷ d ∷ ds ]

-- `strings.TrimSpace`
unfoldable pub trim_space : Runes → Runes
unfolding trim_right
trim_space s = trim_right is_space (trim_left is_space s)

-- `strings.TrimSpace` of a text that stays one
unfoldable pub trim_text_left : String → String
trim_text_left String.[] = String.[]
trim_text_left (String.◌∷◌ c s) =
    let rest = trim_text_left s in if is_space (code c) then rest else String.◌∷◌ c s

unfoldable pub trim_text_right : String → String
trim_text_right String.[] = String.[]
trim_text_right (String.◌∷◌ c s) =
    let rest = trim_text_right s in
    elim rest [
      | String.[] ↦ if is_space (code c) then String.[] else String.◌∷◌ c String.[]
      | String.◌∷◌ d ds ↦ String.◌∷◌ c (String.◌∷◌ d ds)
    ]

unfoldable pub trim_text : String → String
unfolding trim_text_left trim_text_right
trim_text s = trim_text_right (trim_text_left s)

-- `strings.HasPrefix`
unfoldable pub has_prefix : Runes → Runes → Bool
has_prefix s [] = true
has_prefix [] (c ∷ prefix) = false
has_prefix (d ∷ s) (c ∷ prefix) = d == c && has_prefix s prefix

pub has_prefix-append : (prefix s : Runes) → has_prefix (prefix ++ s) prefix ≡ true
unfolding has_prefix
has_prefix-append [] s = refl
has_prefix-append (c ∷ prefix) s = ground (arith, has_prefix-append prefix s)

infix 50 ◌=ʳ◌
-- `a == b`
unfoldable pub ◌=ʳ◌ : Runes → Runes → Bool
[] =ʳ [] = true
[] =ʳ (d ∷ t) = false
(c ∷ s) =ʳ [] = false
(c ∷ s) =ʳ (d ∷ t) = c == d && s =ʳ t

pub =ʳ-iff : (s t : Runes) → ((s =ʳ t) ≡ true) ↔ (s ≡ t)
unfolding ◌=ʳ◌
=ʳ-iff [] [] = ground arith
=ʳ-iff [] (d ∷ t) = ground arith
=ʳ-iff (c ∷ s) [] = ground arith
=ʳ-iff (c ∷ s) (d ∷ t) = ground (arith, =ʳ-iff s t)

-- `strings.Cut`: what is before and after the first occurrence of the separator
unfoldable pub cut_at : Runes → Runes → Option (Runes × Runes)
unfolding has_prefix
cut_at sep [] = if has_prefix [] sep then some ([], []) else none
cut_at sep (c ∷ s) =
    let rest = cut_at sep s in
    if has_prefix (c ∷ s) sep
    then some ([], drop (length sep) (c ∷ s))
    else (elim rest [ none ↦ none | some (before, after) ↦ some (c ∷ before, after) ])

-- The bytes of a code point in UTF-8, and of a text: `len(s)`.
abbrev pub rune_width : ℕ → ℕ
rune_width c = if ltb c 128 then 1 else if ltb c 2048 then 2 else if ltb c 65536 then 3 else 4

abbrev pub widths : Runes → ℕ
widths [] = 0
widths (c ∷ cs) = rune_width c + widths cs
