-- ===== src/Prelude/Maps.antt =====
-- Go maps with text keys: an association list where the program goes over the entries (in the
-- order that the runtime happens to choose), a function where it only reads and writes keys.
use Prim.Native.String.{String}
use mathlib.Core.Path.{◌≡◌, refl}
use mathlib.Core.Logic.{inl, inr}
use mathlib.Core.Option.{Option, none, some}
use mathlib.Core.List.{List, [], ◌∷◌}
use native.Mathlib.Omega.{arith}
use text.Mathlib.TextEquality.{eq_iff}
use synamcps_server.Prelude.Tests.{if◌then◌else◌, Bool-cases}
use synamcps_server.Prelude.Strings.{◌=ˢ◌}

abbrev pub Dict {ℓ} : Type ℓ → Type ℓ
Dict V = List (String × V)

module _ {ℓ} {V : Type ℓ} where
  -- `v, ok := m[key]`
  unfoldable pub lookup : String → Dict V → Option V
  lookup key [] = none
  lookup key ((first, v) ∷ rest) = if first =ˢ key then some v else lookup key rest

  -- `m[key] = value`
  unfoldable pub insert : String → V → Dict V → Dict V
  insert key value [] = (key, value) ∷ []
  insert key value ((first, old) ∷ rest) =
      if first =ˢ key then (key, value) ∷ rest else (first, old) ∷ insert key value rest

  -- `delete(m, key)`
  unfoldable pub erase : String → Dict V → Dict V
  erase key [] = []
  erase key ((first, old) ∷ rest) =
      let others = erase key rest in if first =ˢ key then others else (first, old) ∷ others

  pub lookup-insert :
      (key asked : String) (value : V) (m : Dict V)
      → lookup asked (insert key value m) ≡ (if key =ˢ asked then some value else lookup asked m)
  unfolding insert lookup
  lookup-insert key asked value [] = refl
  lookup-insert key asked value ((first, old) ∷ rest) = ground (
    arith,
    lookup-insert key asked value rest,
    eq_iff first asked,
    eq_iff first key,
    eq_iff key asked,
  )

  pub lookup-erase :
      (key asked : String) (m : Dict V)
      → lookup asked (erase key m) ≡ (if key =ˢ asked then none else lookup asked m)
  unfolding erase lookup
  lookup-erase key asked [] = ground arith
  lookup-erase key asked ((first, old) ∷ rest) =
      ground
        (arith, lookup-erase key asked rest, eq_iff first asked, eq_iff first key, eq_iff key asked)

  -- a map as a function, with one key written
  abbrev pub update : (String → V) → String → V → String → V
  update f k v j = if k =ˢ j then v else f j

  -- what holds of every entry and of the one written holds of every entry after
  pub update-All {κ} :
      (P : V → Type κ) (f : String → V) (k : String) (v : V)
      → ((j : String) → P (f j))
      → P v
      → (j : String) → P (update f k v j)
  update-All P f k v all new j = elim (Bool-cases (k =ˢ j)) [
    | inl here ↦ rw here new
    | inr away ↦ rw away (all j)
  ]
