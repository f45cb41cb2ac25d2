-- ===== src/SignInPolicy/Page.antt =====
-- frontend/src/pages/policy/SignInPolicyPage.tsx: the page for the two requirements.
-- `Number` and `String` on the texts of the inputs are parameters.
use Prim.Native.String.{◌++◌}
use group_management_ui_back.Prelude.{
  String, Bool, true, false, ◌&&◌, ◌||◌, not, Option, none, some, if◌then◌else◌,
}
use group_management_ui_back.Json.{Num, is_finite, is_integer, is_negative, is_above, is_zero, Json}
use group_management_ui_back.Storage.{Browser}
use group_management_ui_back.SignInPolicy.{
  SignInPolicyState, get_sign_in_policy, save_reauth, save_mfa_required,
}

pub data Panel : Type 0 where
  reauth mfa : Panel

pub data MfaMode : Type 0 where
  no yes : MfaMode

-- The errors of `handleConfirmReauth`.
pub data Invalid : Type 0 where
  days_not_whole hours_not_in_day both_zero : Invalid

pub record State : Type 0 where
  pub panel : Option Panel
  pub days : String
  pub hours : String
  pub mfa_mode : MfaMode
  pub error : Option Invalid

abbrev pub mode_of : Bool → MfaMode
mode_of true = yes
mode_of false = no

-- The first state, with the effect on mount.
unfoldable pub mount : (Json → Num) → (Num → String) → Browser Json → State
mount number_of text_of b =
    let s = get_sign_in_policy number_of b in
    record {
      panel = none;
      days = text_of s.reauth.days;
      hours = text_of s.reauth.hours;
      mfa_mode = mode_of s.mfa_required;
      error = none;
    }

-- `!Number.isFinite(d) || d < 0 || !Number.isInteger(d)`
abbrev pub is_not_whole : Num → Bool
is_not_whole n = not (is_finite n) || (is_negative n || not (is_integer n))

unfoldable pub validate : Num → Num → Option Invalid
validate d h =
    if is_not_whole d
    then some days_not_whole
    else if is_not_whole h || is_above 23 h
    then some hours_not_in_day
    else if is_zero d && is_zero h
    then some both_zero
    else none

abbrev pub is_yes : MfaMode → Bool
is_yes yes = true
is_yes no = false

module _ (number_of : Json → Num) (of_text : String → Num) where
  -- `handleConfirmReauth`
  unfoldable pub confirm_reauth : State → Browser Json → State × Browser Json
  unfolding save_reauth
  confirm_reauth s b =
      let d = of_text s.days in
      let h = of_text s.hours in
      elim (validate d h) [
        | some invalid ↦ (record s { error = some invalid }, b)
        | none ↦ (record s { error = none; panel = none }, save_reauth number_of d h b)
      ]

  -- `handleConfirmMfa`
  unfoldable pub confirm_mfa : State → Browser Json → State × Browser Json
  unfolding save_mfa_required
  confirm_mfa s b = (record s { panel = none }, save_mfa_required number_of (is_yes s.mfa_mode) b)

abbrev pub same_panel : Panel → Option Panel → Bool
same_panel reauth (some reauth) = true
same_panel mfa (some mfa) = true
same_panel _ _ = false

-- The button "Manage" of a card.
unfoldable pub manage : Panel → State → State
manage p s = record s { panel = if same_panel p s.panel then none else some p }

-- The inputs.
unfoldable pub enter_days : String → State → State
enter_days v s = record s { days = v }

unfoldable pub enter_hours : String → State → State
enter_hours v s = record s { hours = v }

unfoldable pub choose_mfa : MfaMode → State → State
choose_mfa m s = record s { mfa_mode = m }

-- The descriptions of the two cards.
unfoldable pub summaries : (Num → String) → SignInPolicyState → String × String
summaries text_of s = (
  "Authenticate every " ++ (text_of s.reauth.days ++ " days"),
  if s.mfa_required then "MFA Required" else "MFA Not Required",
)
