-- ===== src/Prelude/Text.antt =====
-- The methods of JavaScript strings that the program calls, over the native texts.
use text.Mathlib.TextLemmas.{cons-append}
use native.Mathlib.Omega.{arith}
use Prim.Native.Nat.{ℕ, zero, suc, ◌/◌, ◌%◌}
use Prim.Native.Char.{Char, code}
use Prim.Native.String.{String, [], ◌∷◌, ◌++◌}
use mathlib.Core.Path.{◌≡◌, refl}
use mathlib.Core.Logic.{inl, inr}
use mathlib.Core.Bool.{Bool, true, false, ◌&&◌, ◌||◌}
use text.Mathlib.Text.{starts_with}
use group_management_ui_back.Prelude.Tests.{Bool-cases, ltb, if◌then◌else◌, leb, eqb}

-- `!s`: of all texts, only the empty one is falsy.
abbrev pub is_blank : String → Bool
is_blank [] = true
is_blank (c ∷ s) = false

-- The code points that `trim` and `\s` take for white space (WhiteSpace and LineTerminator).
unfoldable pub is_space : ℕ → Bool
is_space c =
    eqb c 32
    || (leb 9 c && leb c 13)
    || eqb c 160
    || eqb c 0x1680
    || (leb 0x2000 c && leb c 0x200a)
    || eqb c 0x2028
    || eqb c 0x2029
    || eqb c 0x202f
    || eqb c 0x205f
    || eqb c 0x3000
    || eqb c 0xfeff

unfoldable pub trim_start : String → String
unfolding is_space
trim_start [] = []
trim_start (c ∷ s) = let rest = trim_start s in if is_space (code c) then rest else c ∷ s

abbrev cons_trimmed : Char → String → String
cons_trimmed c [] = if is_space (code c) then [] else c ∷ []
cons_trimmed c (d ∷ s) = c ∷ d ∷ s

unfoldable pub trim_end : String → String
unfolding is_space
trim_end [] = []
trim_end (c ∷ s) = cons_trimmed c (trim_end s)

-- `s.trim()`
unfoldable pub trim : String → String
unfolding trim_start trim_end
trim s = trim_end (trim_start s)

-- `s.replace(/\s/g, '')`
unfoldable pub strip_spaces : String → String
strip_spaces [] = []
strip_spaces (c ∷ s) = if is_space (code c) then strip_spaces s else c ∷ strip_spaces s

-- `s.includes(t)`
unfoldable pub contains_text : String → String → Bool
contains_text [] t = is_blank t
contains_text (c ∷ s) t = starts_with (c ∷ s) t || contains_text s t

trim_test : trim " \ta b\n " ≡ "a b"
unfolding trim
trim_test = refl

pub eq_of_is_blank : (s : String) → is_blank s ≡ true → s ≡ ""
eq_of_is_blank [] h = refl
eq_of_is_blank (c ∷ s) h = cc

pub is_blank_of_eq : (s : String) → s ≡ "" → is_blank s ≡ true
is_blank_of_eq s e = rw e

pub ne_of_is_blank : (s : String) → is_blank s ≡ false → s ≡ "" → ⊥
ne_of_is_blank s h e = cc (is_blank_of_eq s e)

unfoldable pub digit : ℕ → String
digit zero = "0"
digit (suc zero) = "1"
digit (suc (suc zero)) = "2"
digit (suc (suc (suc zero))) = "3"
digit (suc (suc (suc (suc zero)))) = "4"
digit (suc (suc (suc (suc (suc zero))))) = "5"
digit (suc (suc (suc (suc (suc (suc zero)))))) = "6"
digit (suc (suc (suc (suc (suc (suc (suc zero))))))) = "7"
digit (suc (suc (suc (suc (suc (suc (suc (suc zero)))))))) = "8"
digit _ = "9"

unfoldable pub digits_fuel : ℕ → ℕ → String → String
unfolding digit
digits_fuel zero n rest = rest
digits_fuel (suc fuel) n rest =
    let more = digits_fuel fuel (n / 10) (digit (n % 10) ++ rest) in
    if ltb n 10 then digit n ++ rest else more

-- The decimal digits of a number; a number has fewer digits than its successor counts.
unfoldable pub to_text : ℕ → String
unfolding digits_fuel
to_text n = digits_fuel (suc n) n ""

filled_append : (s rest : String) → is_blank s ≡ false → is_blank (s ++ rest) ≡ false
filled_append [] rest h = cc
filled_append (c ∷ s) rest h = rw cons-append refl

digit_not_blank : (n : ℕ) → is_blank (digit n) ≡ false
unfolding digit
digit_not_blank zero = refl
digit_not_blank (suc zero) = refl
digit_not_blank (suc (suc zero)) = refl
digit_not_blank (suc (suc (suc zero))) = refl
digit_not_blank (suc (suc (suc (suc zero)))) = refl
digit_not_blank (suc (suc (suc (suc (suc zero))))) = refl
digit_not_blank (suc (suc (suc (suc (suc (suc zero)))))) = refl
digit_not_blank (suc (suc (suc (suc (suc (suc (suc zero))))))) = refl
digit_not_blank (suc (suc (suc (suc (suc (suc (suc (suc zero)))))))) = refl
digit_not_blank (suc (suc (suc (suc (suc (suc (suc (suc (suc zero))))))))) = refl
digit_not_blank (suc (suc (suc (suc (suc (suc (suc (suc (suc (suc n)))))))))) = refl

digit_filled : (n : ℕ) (rest : String) → is_blank (digit n ++ rest) ≡ false
digit_filled n rest = filled_append (digit n) rest (digit_not_blank n)

digits_filled :
    (fuel n : ℕ) (rest : String)
    → is_blank rest ≡ false
    → is_blank (digits_fuel fuel n rest) ≡ false
unfolding digits_fuel
digits_filled zero n rest h = h
digits_filled (suc fuel) n rest h = ground (
  arith,
  digit_filled n rest,
  digits_filled fuel (n / 10) (digit (n % 10) ++ rest) (digit_filled (n % 10) rest),
)

-- A number is written with at least one digit.
pub to_text_filled : (n : ℕ) → is_blank (to_text n) ≡ false
unfolding to_text digits_fuel
to_text_filled n = ground (
  arith,
  digit_filled n "",
  digits_filled n (n / 10) (digit (n % 10) ++ "") (digit_filled (n % 10) ""),
)

to_text_test : to_text 4080 ≡ "4080"
unfolding to_text
to_text_test = refl

-- The text after the code points of a prefix.
drop_prefix : String → String → String
drop_prefix [] s = s
drop_prefix (p ∷ ps) [] = []
drop_prefix (p ∷ ps) (c ∷ s) = drop_prefix ps s

-- `s.replace(pattern, '')` at a pattern that is not empty: the first occurrence goes.
unfoldable pub remove_first : String → String → String
unfolding drop_prefix
remove_first pattern [] = []
remove_first pattern (c ∷ s) =
    let rest = remove_first pattern s in
    if starts_with (c ∷ s) pattern then drop_prefix pattern (c ∷ s) else c ∷ rest

remove_first_test : remove_first "User: " "User: Ann User: " ≡ "Ann User: "
unfolding remove_first
remove_first_test = refl

-- A text with no white space in it.
abbrev pub NoSpace : String → Type 0
NoSpace [] = Unit
NoSpace (c ∷ s) = (is_space (code c) ≡ false) × NoSpace s

pub strip_spaces-NoSpace : (s : String) → NoSpace (strip_spaces s)
unfolding strip_spaces
strip_spaces-NoSpace [] = tt
strip_spaces-NoSpace (c ∷ s) = elim (Bool-cases (is_space (code c))) [
  | inl h ↦ rw h (strip_spaces-NoSpace s)
  | inr h ↦ rw h (h, strip_spaces-NoSpace s)
]
