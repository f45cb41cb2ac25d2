-- ===== src/Prelude/Digits.antt =====
-- The decimal digits of a number, which `to_text` of Text writes: reading them back, and their fuel.
use text.Mathlib.TextLemmas.{cons-append, nil-append}
use native.Mathlib.Omega.{arith}
use Prim.Native.Nat.{ℕ, zero, suc, ◌+◌, ◌-◌, ◌*◌, ◌/◌, ◌%◌, ◌<◌}
use Prim.Native.Char.{Char, code}
use Prim.Native.String.{String, [], ◌∷◌, ◌++◌}
use mathlib.Core.Path.{◌≡◌, refl, ap}
use group_management_ui_back.Prelude.Text.{digit, digits_fuel, to_text}

-- The number that is read from digits, after those that make `n`.
unfoldable pub read_from : ℕ → String → ℕ
read_from n [] = n
read_from n (c ∷ s) = read_from (n * 10 + (code c - 48)) s

read-one :
    (n : ℕ) (c : Char) (rest : String)
    → read_from n ((c ∷ "") ++ rest) ≡ read_from (n * 10 + (code c - 48)) rest
unfolding read_from
read-one n c rest = rw cons-append (rw nil-append refl)

read-digit :
    (n d : ℕ) (rest : String) → d < 10 → read_from n (digit d ++ rest) ≡ read_from (n * 10 + d) rest
unfolding digit
read-digit n zero rest h = read-one n "0" rest
read-digit n (suc zero) rest h = read-one n "1" rest
read-digit n (suc (suc zero)) rest h = read-one n "2" rest
read-digit n (suc (suc (suc zero))) rest h = read-one n "3" rest
read-digit n (suc (suc (suc (suc zero)))) rest h = read-one n "4" rest
read-digit n (suc (suc (suc (suc (suc zero))))) rest h = read-one n "5" rest
read-digit n (suc (suc (suc (suc (suc (suc zero)))))) rest h = read-one n "6" rest
read-digit n (suc (suc (suc (suc (suc (suc (suc zero))))))) rest h = read-one n "7" rest
read-digit n (suc (suc (suc (suc (suc (suc (suc (suc zero)))))))) rest h = read-one n "8" rest
read-digit n (suc (suc (suc (suc (suc (suc (suc (suc (suc zero))))))))) rest h = read-one n "9" rest
read-digit n (suc (suc (suc (suc (suc (suc (suc (suc (suc (suc d)))))))))) rest h =
    absurd (omega arith)

read-digits_fuel :
    (fuel n : ℕ) (rest : String)
    → n < fuel
    → read_from 0 (digits_fuel fuel n rest) ≡ read_from n rest
unfolding digits_fuel
read-digits_fuel zero n rest h = absurd (omega arith)
read-digits_fuel (suc fuel) n rest h = ground (
  arith,
  read-digit 0 n rest,
  read-digit (n / 10) (n % 10) rest,
  read-digits_fuel fuel (n / 10) (digit (n % 10) ++ rest),
)

digits_fuel-agree :
    (fuel more n : ℕ) (rest : String)
    → n < fuel
    → n < more
    → digits_fuel fuel n rest ≡ digits_fuel more n rest
unfolding digits_fuel
digits_fuel-agree zero more n rest h k = absurd (omega arith)
digits_fuel-agree (suc fuel) zero n rest h k = absurd (omega arith)
digits_fuel-agree (suc fuel) (suc more) n rest h k =
    ground (arith, digits_fuel-agree fuel more (n / 10) (digit (n % 10) ++ rest))

-- The digits of a number are the same whatever fuel above the number they are written with.
pub digits_fuel-enough : (fuel n : ℕ) → n < fuel → digits_fuel fuel n "" ≡ to_text n
unfolding to_text
digits_fuel-enough fuel n h = digits_fuel-agree fuel (suc n) n "" h (omega arith)

-- What is written of a number is read back.
pub read-to_text : (n : ℕ) → read_from 0 (to_text n) ≡ n
unfolding to_text read_from
read-to_text n = read-digits_fuel (suc n) n "" (omega arith)

-- Two numbers that are written alike are equal.
pub to_text_injective : (m n : ℕ) → to_text m ≡ to_text n → m ≡ n
to_text_injective m n e = grind (arith, read-to_text m, read-to_text n, ap (read_from 0) e)
