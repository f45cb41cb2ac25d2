-- ===== src/Routing/Router.antt =====
-- The router that frontend/src/App.tsx hands its routes to, as an interface: what the library
-- documents of which route is rendered at a path, in which elements and with which parameters.
use Prim.Native.Char.{code}
use Prim.Native.String.{[] as nil_text, ◌∷◌ as cons_text, ◌++◌ as append}
use group_management_ui_back.Prelude.{
  ℕ, ◌+◌, leb, eqb, if◌then◌else◌, String, ◌≡◌, Bool, true, false, ◌&&◌, ◌||◌, not, Option, some,
  List, [], ◌∷◌, ◌++◌, map, All, find, ◌==◌, is_blank, Dict,
}
use group_management_ui_back.Api.Encoding.{encode_uri_component}
use group_management_ui_back.Routing.{
  Element, Part, fixed, param, Routes, end_routes, index_route, route,
}

-- A route under its whole path, with the elements that it is rendered in, the outermost first.
pub record Branch : Type 0 where
  pub pattern : List Part
  pub elements : List Element
  pub is_index : Bool

abbrev within : List Part → Element → Branch → Branch
within parts e l = record l { pattern = parts ++ l.pattern; elements = e ∷ l.elements }

-- Every route may be rendered, a layout with routes in it too; it comes after the routes in it.
abbrev pub branches : Routes → List Branch
branches end_routes = []
branches (index_route e rest) =
    record { pattern = []; elements = e ∷ []; is_index = true } ∷ branches rest
branches (route parts e inner rest) =
    map (within parts e) (branches inner)
    ++ (record { pattern = parts; elements = e ∷ []; is_index = false } ∷ branches rest)

-- A path has the shape of a pattern.
abbrev pub fits : List Part → List String → Bool
fits [] [] = true
fits [] (s ∷ ss) = false
fits (p ∷ ps) [] = false
fits (fixed a ∷ ps) (s ∷ ss) = s == a && fits ps ss
fits (param a ∷ ps) (s ∷ ss) = fits ps ss

-- Two texts that differ at most in the case of the letters A to Z.
abbrev lower_code : ℕ → ℕ
lower_code n = if leb b'A' n && leb n b'Z' then n + 32 else n

abbrev pub alike : String → String → Bool
alike nil_text nil_text = true
alike nil_text (cons_text d t) = false
alike (cons_text c s) nil_text = false
alike (cons_text c s) (cons_text d t) = eqb (lower_code (code c)) (lower_code (code d)) && alike s t

-- A path may match a pattern, whose fixed segments match in either case.
abbrev pub may_fit : List Part → List String → Bool
may_fit [] [] = true
may_fit [] (s ∷ ss) = false
may_fit (p ∷ ps) [] = false
may_fit (fixed a ∷ ps) (s ∷ ss) = alike s a && may_fit ps ss
may_fit (param a ∷ ps) (s ∷ ss) = may_fit ps ss

abbrev pub same : List Part → List Part → Bool
same [] [] = true
same [] (q ∷ qs) = false
same (p ∷ ps) [] = false
same (fixed a ∷ ps) (fixed b ∷ qs) = a == b && same ps qs
same (fixed a ∷ ps) (param b ∷ qs) = false
same (param a ∷ ps) (fixed b ∷ qs) = false
same (param a ∷ ps) (param b ∷ qs) = a == b && same ps qs

-- A pattern is at least as specific as another of its length: it has a fixed segment wherever the
-- other has one.
abbrev pub covers : List Part → List Part → Bool
covers [] [] = true
covers [] (q ∷ qs) = false
covers (p ∷ ps) [] = false
covers (fixed a ∷ ps) (q ∷ qs) = covers ps qs
covers (param a ∷ ps) (fixed b ∷ qs) = false
covers (param a ∷ ps) (param b ∷ qs) = covers ps qs

abbrev pub beats : List Part → List Part → Bool
beats ps qs = covers ps qs && not (covers qs ps)

-- A route comes before another or is level with it: its pattern is more specific, or it is the same
-- and the other is not an index route beside one that is none.
abbrev pub outranks : Branch → Branch → Bool
outranks l m =
    same l.pattern m.pattern && (l.is_index || not m.is_index) || beats l.pattern m.pattern

-- Both have one pattern, and are index routes or not.
abbrev pub level : Branch → Branch → Bool
level l m =
    same l.pattern m.pattern && (l.is_index || not m.is_index) && (m.is_index || not l.is_index)

-- No route that may match the path comes before this one.
abbrev pub wins : List String → Branch → List Branch → Bool
wins ss l [] = true
wins ss l (m ∷ ms) = (not (may_fit m.pattern ss) || outranks l m) && wins ss l ms

-- `/a/b` for the segments `a` and `b`
abbrev pub path_of : List String → String
path_of [] = ""
path_of (s ∷ []) = append "/" s
path_of (s ∷ t ∷ ss) = append "/" (append s (path_of (t ∷ ss)))

-- A text that is not empty and no relative segment.
abbrev pub is_named : String → Bool
is_named s = not (is_blank s || s == "." || s == "..")

-- A segment of a path that nothing takes apart: the encoding of such a text.
pub record IsWhole (segment : String) : Type 0 where
  pub text : String
  pub encoded : encode_uri_component text ≡ segment
  pub named : is_named text ≡ true

-- Such a text that is its own encoding.
abbrev pub is_plain : String → Bool
is_plain s = encode_uri_component s == s && is_named s

-- `useParams()` at a path that has the shape of a pattern
abbrev pub bindings : (String → String) → List Part → List String → Dict String
bindings decode [] ss = []
bindings decode (p ∷ ps) [] = []
bindings decode (fixed a ∷ ps) (s ∷ ss) = bindings decode ps ss
bindings decode (param a ∷ ps) (s ∷ ss) = (a, decode s) ∷ bindings decode ps ss

-- What is rendered, and the parameters of the path.
abbrev pub Screen : Type 0
Screen = List Element × Dict String

-- The first of the routes that are level with it, which has the shape of the path and wins there.
abbrev pub IsBest : Routes → Branch → List String → Type 0
IsBest routes l ss =
    (find (level l) (branches routes) ≡ some l)
    × (fits l.pattern ss ≡ true)
    × (wins ss l (branches routes) ≡ true)

-- A router of a table decodes the segments of a path, and renders the most specific of its routes.
pub record Router (routes : Routes) : Type 0 where
  pub decode : String → String
  pub keeps : (s : String) → encode_uri_component s ≡ s → decode s ≡ s
  pub render : String → Option Screen
  pub renders :
      (l : Branch) (s : String) (ss : List String)
      → All IsWhole (s ∷ ss)
      → IsBest routes l (s ∷ ss)
      → render (path_of (s ∷ ss)) ≡ some (l.elements, bindings decode l.pattern (s ∷ ss))
