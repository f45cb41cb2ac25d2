-- ===== src/Api/Encoding.antt =====
-- `encodeURIComponent`, by which frontend/lib/mock-api.ts puts some identifiers into paths.
use Prim.Native.Char.{Char, code}
use Prim.Native.Nat.{◌/◌}
use Prim.Native.String.{[], ◌∷◌, ◌++◌}
use text.Mathlib.TextLemmas.{nil-append, cons-append}
use mathlib.Core.List.{List, [], ◌∷◌}
use group_management_ui_back.Prelude.{
  ℕ, zero, suc, All, ◌+◌, ◌%◌, ◌≢◌, ◌≡◌, refl, String, Bool, true, false, ◌||◌, ◌&&◌, ltb, leb, eqb,
  if◌then◌else◌, arith, Bool-cases, inl, inr,
}

-- The characters that are kept: letters, digits and - _ . ! ~ * ' ( )
is_unreserved : ℕ → Bool
is_unreserved c =
    (leb b'A' c && leb c b'Z')
    || (leb b'a' c && leb c b'z')
    || (leb b'0' c && leb c b'9')
    || eqb c b'-'
    || eqb c b'_'
    || eqb c b'.'
    || eqb c b'!'
    || eqb c b'~'
    || eqb c b'*'
    || eqb c 39
    || eqb c b'('
    || eqb c b')'

pick : List String → ℕ → String
pick [] n = []
pick (d ∷ ds) zero = d
pick (d ∷ ds) (suc n) = pick ds n

abbrev hex_digits : List String
hex_digits =
    "0" ∷ "1" ∷ "2" ∷ "3" ∷ "4" ∷ "5" ∷ "6" ∷ "7" ∷ "8" ∷ "9" ∷ "A" ∷ "B" ∷ "C" ∷ "D" ∷ "E" ∷ "F"
    ∷ []

-- The digit of a number below 16.
hex_digit : ℕ → String
unfolding pick
hex_digit n = pick hex_digits n

-- `%XY` for one byte.
escape : ℕ → String
unfolding hex_digit
escape byte = "%" ++ (hex_digit (byte / 16) ++ hex_digit (byte % 16))

-- The UTF-8 bytes of a code point, each escaped.
escape_code : ℕ → String
unfolding escape
escape_code c =
    if ltb c 0x80
    then escape c
    else if ltb c 0x800
    then escape (0xc0 + c / 64) ++ escape (0x80 + c % 64)
    else if ltb c 0x10000
    then escape (0xe0 + c / 4096) ++ (escape (0x80 + c / 64 % 64) ++ escape (0x80 + c % 64))
    else escape (0xf0 + c / 262144)
      ++ (escape (0x80 + c / 4096 % 64) ++ (escape (0x80 + c / 64 % 64) ++ escape (0x80 + c % 64)))

unfoldable pub encode_uri_component : String → String
unfolding is_unreserved escape_code
encode_uri_component [] = []
encode_uri_component (c ∷ s) =
    let rest = encode_uri_component s in
    if is_unreserved (code c) then c ∷ rest else escape_code (code c) ++ rest

encode_test : encode_uri_component "a/b é" ≡ "a%2Fb%20%C3%A9"
unfolding encode_uri_component
encode_test = refl

-- A text that stays within one segment of a path: it has no slash, question mark or number sign.
abbrev pub IsSegment : String → Type 0
IsSegment [] = Unit
IsSegment (c ∷ s) = (code c ≢ b'/') × (code c ≢ b'?') × (code c ≢ b'#') × IsSegment s

IsSegment-append : (s t : String) → IsSegment s → IsSegment t → IsSegment (s ++ t)
IsSegment-append [] t h k = rw nil-append k
IsSegment-append (c ∷ s) t (p, q, r, h) k = rw cons-append (p, q, r, IsSegment-append s t h k)

pick-IsSegment : (ds : List String) (n : ℕ) → All IsSegment ds → IsSegment (pick ds n)
unfolding pick
pick-IsSegment [] n h = tt
pick-IsSegment (d ∷ ds) zero h = h.0
pick-IsSegment (d ∷ ds) (suc n) h = pick-IsSegment ds n h.1

hex_digit-IsSegment : (n : ℕ) → IsSegment (hex_digit n)
unfolding hex_digit
hex_digit-IsSegment n = pick-IsSegment hex_digits n (omega arith)

escape-IsSegment : (byte : ℕ) → IsSegment (escape byte)
unfolding escape
escape-IsSegment byte =
    IsSegment-append "%" (hex_digit (byte / 16) ++ hex_digit (byte % 16)) (omega arith) (
      IsSegment-append (hex_digit (byte / 16)) (hex_digit (byte % 16))
        (hex_digit-IsSegment (byte / 16)) (hex_digit-IsSegment (byte % 16)))

IsSegment-if :
    (b : Bool) (s t : String) → IsSegment s → IsSegment t → IsSegment (if b then s else t)
IsSegment-if true s t h k = h
IsSegment-if false s t h k = k

ruleset segment_rules = (IsSegment-append, IsSegment-if, escape-IsSegment)

escape_code-IsSegment : (c : ℕ) → IsSegment (escape_code c)
unfolding escape_code
escape_code-IsSegment c = search segment_rules depth 8

kept_ne : (n m : ℕ) → is_unreserved n ≡ true → is_unreserved m ≡ false → n ≢ m
kept_ne n m h k e = cc

unreserved-IsSegment :
    (c : Char) (s : String) → is_unreserved (code c) ≡ true → IsSegment s → IsSegment (c ∷ s)
unfolding is_unreserved
unreserved-IsSegment c s h k =
    (kept_ne (code c) b'/' h refl, kept_ne (code c) b'?' h refl, kept_ne (code c) b'#' h refl, k)

-- Whatever the identifier, its encoding stays within one segment of a path.
pub encode-IsSegment : (s : String) → IsSegment (encode_uri_component s)
unfolding encode_uri_component
encode-IsSegment [] = tt
encode-IsSegment (c ∷ s) = elim (Bool-cases (is_unreserved (code c))) [
  | inl h ↦ rw h (unreserved-IsSegment c (encode_uri_component s) h (encode-IsSegment s))
  | inr h ↦ rw h (
      IsSegment-append (escape_code (code c)) (encode_uri_component s)
        (escape_code-IsSegment (code c)) (encode-IsSegment s))
]
