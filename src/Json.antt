-- ===== src/Json.antt =====
-- JavaScript numbers and JSON values, as far as the program looks into them.
use group_management_ui_back.Prelude.{
  ℕ, String, Bool, true, false, ◌&&◌, ◌||◌, not, Option, none, some, List, [], ◌∷◌, ◌==◌, eqb, ltb,
  if◌then◌else◌, is_blank,
}

-- A double: sign, whole part, and the fraction in units of 2^-1074.
pub data Num : Type 0 where
  nan : Num
  infinite : Bool → Num
  finite : Bool → ℕ → ℕ → Num

abbrev pub int : ℕ → Num
int n = finite false n 0

-- `Number.isFinite(x)`
abbrev pub is_finite : Num → Bool
is_finite (finite _ _ _) = true
is_finite _ = false

-- `Number.isInteger(x)`
abbrev pub is_integer : Num → Bool
is_integer (finite _ _ fraction) = eqb fraction 0
is_integer _ = false

-- `x >= 0` and `x < 0`; both are false at NaN, and -0 is not below 0.
abbrev pub is_nonneg : Num → Bool
is_nonneg nan = false
is_nonneg (infinite negative) = not negative
is_nonneg (finite negative whole fraction) = not negative || (eqb whole 0 && eqb fraction 0)

abbrev pub is_negative : Num → Bool
is_negative nan = false
is_negative (infinite negative) = negative
is_negative (finite negative whole fraction) = negative && not (eqb whole 0 && eqb fraction 0)

-- `x === 0`
abbrev pub is_zero : Num → Bool
is_zero (finite _ whole fraction) = eqb whole 0 && eqb fraction 0
is_zero _ = false

-- `x > k`
abbrev pub is_above : ℕ → Num → Bool
is_above k nan = false
is_above k (infinite negative) = not negative
is_above k (finite negative whole fraction) =
    not negative && (ltb k whole || (eqb whole k && not (eqb fraction 0)))

mutual
  pub data Json : Type 0 where
    null : Json
    bool : Bool → Json
    num : Num → Json
    str : String → Json
    arr : Items → Json
    obj : Fields → Json

  pub data Items : Type 0 where
    nil : Items
    cons : Json → Items → Items

  pub data Fields : Type 0 where
    end : Fields
    field : String → Json → Fields → Fields

-- The last field of a name counts, as `JSON.parse` keeps it; `undefined` is `none`.
unfoldable pub get_field : String → Fields → Option Json
get_field name end = none
get_field name (field other v fs) = elim (get_field name fs) [
  | some w ↦ some w
  | none ↦ if other == name then some v else none
]

-- What `JSON.stringify` does with an `undefined` member: it leaves the member out.
abbrev pub field? : String → Option Json → Fields → Fields
field? name none fs = fs
field? name (some v) fs = field name v fs

abbrev pub of_texts : List String → Items
of_texts [] = nil
of_texts (s ∷ ss) = cons (str s) (of_texts ss)

-- What `JSON.stringify` writes for -0 is 0.
abbrev pub unsigned_zero : Num → Num
unsigned_zero n = if is_zero n then int 0 else n

-- What `JSON.stringify` writes of a number: NaN and the infinities become `null`.
abbrev pub of_num : Num → Json
of_num nan = null
of_num (infinite _) = null
of_num (finite negative whole fraction) = num (unsigned_zero (finite negative whole fraction))

-- `Boolean(v)`, with `none` for `undefined`
unfoldable pub truthy : Option Json → Bool
truthy none = false
truthy (some null) = false
truthy (some (bool b)) = b
truthy (some (num nan)) = false
truthy (some (num n)) = not (is_zero n)
truthy (some (str s)) = not (is_blank s)
truthy (some _) = true
