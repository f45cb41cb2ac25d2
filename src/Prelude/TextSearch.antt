-- ===== src/Prelude/TextSearch.antt =====
-- `startsWith` and `includes` of JavaScript texts.
use Prim.Native.String.{String, [], ◌∷◌}
use mathlib.Core.Bool.{Bool, ◌||◌}
use text.Mathlib.Text.{starts_with}

-- `s.startsWith(t)`, on a text that a rewrite can reach.
unfoldable pub begins : String → String → Bool
begins s t = starts_with s t

-- `s.includes(t)`
unfoldable pub contains : String → String → Bool
unfolding begins
contains [] t = begins [] t
contains (c ∷ s) t = begins (c ∷ s) t || contains s t
