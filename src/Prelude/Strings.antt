-- ===== src/Prelude/Strings.antt =====
-- Text two ways: the native `String` where the program compares whole texts, and a list of code
-- points, `Runes`, where it walks a text.
use Prim.Native.Nat.{ℕ}
use Prim.Native.Char.{code}
use Prim.Native.String.{String}
use mathlib.Core.Bool.{Bool, false, ◌||◌, ◌&&◌}
use mathlib.Core.Path.{◌≡◌, refl}
use mathlib.Core.Logic.{◌≢◌, inl, inr}
use native.Mathlib.Omega.{arith}
use text.Mathlib.TextEquality.{eq_iff}
use synamcps_server.Prelude.Tests.{if◌then◌else◌, Bool-cases}
use synamcps_server.Prelude.Lists.{keep, is_empty}
use mathlib.Core.List.{List, [], ◌∷◌}
use text.Mathlib.Text.{◌==◌ as str_eq}

abbrev pub Runes : Type 0
Runes = List ℕ

abbrev pub codes : String → Runes
codes String.[] = []
codes (String.◌∷◌ c s) = code c ∷ codes s

infix 50 ◌=ˢ◌
abbrev pub ◌=ˢ◌ : String → String → Bool
◌=ˢ◌ = str_eq

-- `slices.Contains(values, want)`
unfoldable pub contains : List String → String → Bool
contains [] want = false
contains (value ∷ values) want = str_eq value want || contains values want

-- A set of texts, `map[string]struct{}`, as a list with no repetition; `set[x] = struct{}{}`.
unfoldable pub add : String → List String → List String
unfolding contains
add x s = if contains s x then s else x ∷ s

-- A loop that puts every text of a list into a set.
unfoldable pub add_all : List String → List String → List String
unfolding add
add_all [] s = s
add_all (x ∷ xs) s = add_all xs (add x s)

pub contains-keep :
    (p : String → Bool) (xs : List String) (w : String)
    → contains (keep p xs) w ≡ (contains xs w && p w)
unfolding contains
contains-keep p [] w = refl
contains-keep p (x ∷ xs) w = elim (Bool-cases (x =ˢ w)) [
  | inl same ↦ ground (arith, contains-keep p xs w, eq_iff x w)
  | inr other ↦ ground (arith, contains-keep p xs w)
]

pub contains-add :
    (x : String) (s : List String) (w : String) → contains (add x s) w ≡ (x =ˢ w || contains s w)
unfolding add contains
contains-add x s w = ground (arith, eq_iff x w)

pub contains-add_all :
    (xs s : List String) (w : String) → contains (add_all xs s) w ≡ (contains xs w || contains s w)
unfolding add_all
contains-add_all [] s w = unfold contains in refl
contains-add_all (x ∷ xs) s w =
    unfold contains in ground (arith, contains-add_all xs (add x s) w, contains-add x s w)

pub contains-nil : (w : String) → contains [] w ≡ false
unfolding contains
contains-nil w = refl

pub is_empty-add : (x : String) (s : List String) → is_empty (add x s) ≡ false
unfolding add
is_empty-add x s = ground arith

pub is_empty-add_all : (xs s : List String) → is_empty (add_all xs s) ≡ (is_empty xs && is_empty s)
unfolding add_all
is_empty-add_all [] s = refl
is_empty-add_all (x ∷ xs) s = ground (arith, is_empty-add_all xs (add x s), is_empty-add x s)

pub text_differs : (a b : String) → (a =ˢ b) ≡ false → a ≢ b
text_differs a b h e = ground (arith, eq_iff a b)

pub differs_text : (a b : String) → a ≢ b → (a =ˢ b) ≡ false
differs_text a b h = ground (arith, eq_iff a b)
