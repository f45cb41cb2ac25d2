-- ===== src/Prelude/Entries.antt =====
-- An object with texts for keys, newest entry first.
use Prim.Native.String.{String}
use mathlib.Core.Path.{◌≡◌, refl}
use mathlib.Core.Option.{Option, none, some}
use mathlib.Core.List.{List, [], ◌∷◌, ◌++◌}
use text.Mathlib.Text.{◌==◌}
use text.Mathlib.TextEquality.{eq_iff}
use native.Mathlib.Omega.{arith}
use group_management_ui_back.Prelude.Tests.{if◌then◌else◌}

abbrev pub Dict : Type 0 → Type 0
Dict V = List (String × V)

module _ {V : Type 0} where
  -- `map[key]`
  unfoldable pub lookup : String → Dict V → Option V
  lookup key [] = none
  lookup key ((k, v) ∷ rest) = if k == key then some v else lookup key rest

  -- `{ ...map, [key]: value }`
  unfoldable pub put : String → V → Dict V → Dict V
  put key value [] = (key, value) ∷ []
  put key value ((k, v) ∷ rest) =
      if k == key then (k, value) ∷ rest else (k, v) ∷ put key value rest

  pub lookup-put :
      (key other : String) (value : V) (map : Dict V)
      → lookup other (put key value map) ≡ (if key == other then some value else lookup other map)
  unfolding lookup put
  lookup-put key other value [] = refl
  lookup-put key other value ((k, v) ∷ rest) =
      ground
        (arith, lookup-put key other value rest, eq_iff k key, eq_iff k other, eq_iff key other)

-- The first of two values that is there.
abbrev pub or_else {ℓ} : {A : Type ℓ} → Option A → Option A → Option A
or_else none b = b
or_else (some a) b = some a

-- Newer entries hide older ones.
pub lookup-append :
    {V : Type 0} (key : String) (new old : Dict V)
    → lookup key (new ++ old) ≡ or_else (lookup key new) (lookup key old)
unfolding lookup
lookup-append key [] old = refl
lookup-append key ((k, v) ∷ new) old = ground (arith, lookup-append key new old)
