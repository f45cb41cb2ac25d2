-- ===== src/SignInPolicy.antt =====
-- frontend/lib/sign-in-policy.ts: how often users authenticate, and whether with a second factor.
-- `number_of` is `Number` on texts, arrays and objects.
pub mod Reading
pub mod Page
pub mod Confirming
pub mod View
mod Tests
use group_management_ui_back.Prelude.{
  String, Bool, true, false, ◌&&◌, Option, none, some, if◌then◌else◌,
}
use group_management_ui_back.Json.{
  Num, nan, int, is_finite, is_nonneg, Json, null, bool, num, obj, end, field, get_field, of_num,
  truthy,
}
use group_management_ui_back.Storage.{Stored, blank, Browser, json_parse, set_item}

pub record Reauth : Type 0 where
  pub days : Num
  pub hours : Num

pub record SignInPolicyState : Type 0 where
  pub reauth : Reauth
  pub mfa_required : Bool

abbrev pub default_state : SignInPolicyState
default_state = record { reauth = record { days = int 30; hours = int 0 }; mfa_required = false }

-- `v?.name`
abbrev pub optional_member : String → Option Json → Option Json
optional_member name (some (obj fs)) = get_field name fs
optional_member name _ = none

-- `Number(v)`
abbrev pub to_number : (Json → Num) → Option Json → Num
to_number number_of none = nan
to_number number_of (some null) = int 0
to_number number_of (some (bool true)) = int 1
to_number number_of (some (bool false)) = int 0
to_number number_of (some (num n)) = n
to_number number_of (some v) = number_of v

-- `Number.isFinite(n) && n >= 0 ? n : fallback`
abbrev pub count_or : Num → Num → Num
count_or fallback n = if is_finite n && is_nonneg n then n else fallback

-- The body of the `try`: a member of `null` throws, which is caught.
unfoldable pub state_of : (Json → Num) → Option Json → SignInPolicyState
unfolding get_field truthy
state_of number_of none = default_state
state_of number_of (some null) = default_state
state_of number_of (some v) =
    let reauth = optional_member "reauth" (some v) in
    record {
      reauth = record {
        days = count_or (int 30) (to_number number_of (optional_member "days" reauth));
        hours = count_or (int 0) (to_number number_of (optional_member "hours" reauth));
      };
      mfa_required = truthy (optional_member "required" (optional_member "mfa" (some v)));
    }

unfoldable pub read_item : (Json → Num) → Option (Stored Json) → SignInPolicyState
unfolding state_of
read_item number_of none = default_state
read_item number_of (some blank) = default_state
read_item number_of (some text) = state_of number_of (json_parse text)

unfoldable pub read : (Json → Num) → Browser Json → SignInPolicyState
unfolding read_item
read number_of b = if b.has_window then read_item number_of b.item else default_state

-- What `JSON.stringify` writes of a state.
abbrev pub state_json : SignInPolicyState → Json
state_json s = obj (
    field "reauth"
      (obj (field "days" (of_num s.reauth.days) (field "hours" (of_num s.reauth.hours) end)))
      (field "mfa" (obj (field "required" (bool s.mfa_required) end)) end))

unfoldable pub write : SignInPolicyState → Browser Json → Browser Json
write s b = if b.has_window then set_item (state_json s) b else b

unfoldable pub get_sign_in_policy : (Json → Num) → Browser Json → SignInPolicyState
unfolding read
get_sign_in_policy number_of b = read number_of b

unfoldable pub save_reauth : (Json → Num) → Num → Num → Browser Json → Browser Json
unfolding read write
save_reauth number_of days hours b =
    write (record (read number_of b) { reauth = record { days = days; hours = hours } }) b

unfoldable pub save_mfa_required : (Json → Num) → Bool → Browser Json → Browser Json
unfolding read write
save_mfa_required number_of required b =
    write (record (read number_of b) { mfa_required = required }) b
