-- ===== src/SignInPolicy/Reading.antt =====
-- Whatever is stored, the policy that is read is usable; and what is saved is read back.
use group_management_ui_back.Prelude.{
  ◌≡◌, refl, ◌∙◌, Bool, true, ◌&&◌, Option, none, some, if◌then◌else◌, Bool-cases, inl, inr, arith,
}
use group_management_ui_back.Json.{
  Num, nan, infinite, finite, int, is_finite, is_nonneg, unsigned_zero, Json, null, get_field,
  truthy, of_num,
}
use group_management_ui_back.Storage.{Stored, blank, garbled, encoding, Browser}
use group_management_ui_back.SignInPolicy.{
  SignInPolicyState, optional_member, count_or, to_number, state_of, read_item, read, write,
  get_sign_in_policy, save_reauth, save_mfa_required,
}

-- A finite number that is not negative.
abbrev pub IsCount : Num → Type 0
IsCount n = (is_finite n && is_nonneg n) ≡ true

abbrev pub IsUsable : SignInPolicyState → Type 0
IsUsable s = IsCount s.reauth.days × IsCount s.reauth.hours

count_or-IsCount : (fallback n : Num) → IsCount fallback → IsCount (count_or fallback n)
count_or-IsCount fallback n h = elim (Bool-cases (is_finite n && is_nonneg n)) [
  | inl e ↦ rw e e
  | inr e ↦ rw e h
]

module _ (number_of : Json → Num) where
  state_of-IsUsable : (o : Option Json) → IsUsable (state_of number_of o)
  unfolding state_of
  state_of-IsUsable none = (refl, refl)
  state_of-IsUsable (some null) = (refl, refl)
  state_of-IsUsable (some v) = (
    count_or-IsCount (int 30)
        (to_number number_of (optional_member "days" (optional_member "reauth" (some v)))) refl,
    count_or-IsCount (int 0)
        (to_number number_of (optional_member "hours" (optional_member "reauth" (some v)))) refl,
  )

  item-IsUsable : (o : Option (Stored Json)) → IsUsable (read_item number_of o)
  unfolding read_item
  item-IsUsable none = (refl, refl)
  item-IsUsable (some blank) = (refl, refl)
  item-IsUsable (some garbled) = state_of-IsUsable none
  item-IsUsable (some (encoding v)) = state_of-IsUsable (some v)

  -- Whatever is stored, the days and the hours that are read are finite and not negative.
  pub policy-IsUsable : (b : Browser Json) → IsUsable (get_sign_in_policy number_of b)
  unfolding get_sign_in_policy read
  policy-IsUsable b = elim (Bool-cases b.has_window) [
    | inl w ↦ rw w (item-IsUsable b.item)
    | inr w ↦ rw w (refl, refl)
  ]

  -- What a number is read as after it was saved: the fallback where it is negative, and 0 where it
  -- is not finite, since it is written as `null`.
  abbrev pub as_read : Num → Num → Num
  as_read fallback n =
      if is_finite n then (if is_nonneg n then unsigned_zero n else fallback) else int 0

  as_read-of_num :
      (fallback n : Num)
      → count_or fallback (to_number number_of (some (of_num n))) ≡ as_read fallback n
  as_read-of_num fallback nan = refl
  as_read-of_num fallback (infinite negative) = refl
  as_read-of_num fallback (finite negative whole fraction) = ground arith

  policy-read-write :
      (s : SignInPolicyState) (b : Browser Json)
      → b.has_window ≡ true
      → read number_of (write s b) ≡ record {
        reauth = record {
          days = as_read (int 30) s.reauth.days;
          hours = as_read (int 0) s.reauth.hours;
        };
        mfa_required = s.mfa_required;
      }
  unfolding read write read_item state_of get_field truthy
  policy-read-write s b w =
      rw w (rw (as_read-of_num (int 30) s.reauth.days, as_read-of_num (int 0) s.reauth.hours) refl)

  -- Where `window` is defined, a saved interval is read back, each number as it was if it is finite
  -- and not negative (-0 as 0), as the default if it is negative, and as 0 if it is not finite; and
  -- the other requirement stays.
  pub get-save_reauth :
      (days hours : Num) (b : Browser Json)
      → b.has_window ≡ true
      → get_sign_in_policy number_of (save_reauth number_of days hours b) ≡ record {
        reauth = record { days = as_read (int 30) days; hours = as_read (int 0) hours };
        mfa_required = (get_sign_in_policy number_of b).mfa_required;
      }
  unfolding get_sign_in_policy save_reauth
  get-save_reauth days hours b w =
      policy-read-write
        (record (read number_of b) { reauth = record { days = days; hours = hours } }) b w

  as_read-IsCount : (fallback n : Num) → IsCount n → as_read fallback n ≡ unsigned_zero n
  as_read-IsCount fallback n h = elim (Bool-cases (is_finite n)) [
    | inl e ↦ elim (Bool-cases (is_nonneg n)) [
      | inl k ↦ rw (e, k) refl
      | inr k ↦ ground (arith, e, k, h)
    ]
    | inr e ↦ ground (arith, e, h)
  ]

  -- Where `window` is defined, saving whether a second factor is required leaves the interval as it
  -- was read, but for the sign of 0.
  pub get-save_mfa :
      (required : Bool) (b : Browser Json)
      → b.has_window ≡ true
      → get_sign_in_policy number_of (save_mfa_required number_of required b) ≡ record {
        reauth = record {
          days = unsigned_zero (get_sign_in_policy number_of b).reauth.days;
          hours = unsigned_zero (get_sign_in_policy number_of b).reauth.hours;
        };
        mfa_required = required;
      }
  unfolding get_sign_in_policy save_mfa_required
  get-save_mfa required b w =
      let (d, h) = policy-IsUsable b in
      policy-read-write (record (read number_of b) { mfa_required = required }) b w
      ∙ rw
          (
            as_read-IsCount (int 30) (read number_of b).reauth.days d,
            as_read-IsCount (int 0) (read number_of b).reauth.hours h,
          )
          refl
