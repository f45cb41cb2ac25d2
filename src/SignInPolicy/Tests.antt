-- ===== src/SignInPolicy/Tests.antt =====
-- Runs of the sign-in policy and its page, and their theorems at concrete inputs.
use group_management_ui_back.Prelude.{
  String, ◌≡◌, ◌↔◌, ℕ, refl, none, some, true, if◌then◌else◌, ◌==◌, arith,
}
use group_management_ui_back.Json.{
  Num, nan, int, finite, Json, str, obj, end, field, get_field, truthy,
}
use group_management_ui_back.Storage.{Browser, encoding}
use group_management_ui_back.SignInPolicy.{default_state, get_sign_in_policy, save_reauth}
use group_management_ui_back.SignInPolicy.Reading.{as_read, get-save_reauth}
use group_management_ui_back.SignInPolicy.Page.{
  State, reauth, no, both_zero, confirm_reauth, validate,
}
use group_management_ui_back.SignInPolicy.Page.{yes, mount}
use group_management_ui_back.SignInPolicy.View.{after_choice, closed, view, choice_shown}
use group_management_ui_back.SignInPolicy.Confirming.{IsInterval, confirm_iff, confirm_saves}

-- `Number` reads no number from a text within JSON, and some from those of the inputs.
abbrev number_of : Json → Num
number_of v = nan

abbrev of_text : String → Num
of_text s = if s == "" then int 0 else if s == "7" then int 7 else if s == "12" then int 12 else nan

abbrev odd : Browser Json
odd = record {
  has_window = true;
  item = some (encoding (obj (field "reauth" (obj (field "days" (str "x") end)) end)));
}

odd_test : get_sign_in_policy number_of odd ≡ default_state
unfolding get_sign_in_policy get_field truthy
odd_test = refl

abbrev filled : State
filled = record { panel = some reauth; days = "7"; hours = "12"; mfa_mode = no; error = none }

-- An input that is left blank counts as 0.
blank_test :
    (confirm_reauth number_of of_text (record filled { days = ""; hours = "" }) odd).0.error
    ≡ some both_zero
unfolding confirm_reauth validate
blank_test = refl

get-save_reauth_example :
    get_sign_in_policy number_of (save_reauth number_of (finite true 0 0) nan odd) ≡ record {
      reauth = record {
        days = as_read number_of (int 30) (finite true 0 0);
        hours = as_read number_of (int 0) nan;
      };
      mfa_required = (get_sign_in_policy number_of odd).mfa_required;
    }
get-save_reauth_example = get-save_reauth number_of (finite true 0 0) nan odd refl

confirm_iff_example : ((confirm_reauth number_of of_text filled odd).0.error ≡ none) ↔ (
    (days : ℕ) × (hours : ℕ) × IsInterval (of_text filled.days) (of_text filled.hours) days hours)
confirm_iff_example = confirm_iff number_of of_text filled odd

week : IsInterval (of_text "7") (of_text "12") 7 12
week = record {
  days_whole = refl;
  hours_whole = refl;
  in_day = omega arith;
  not_empty = omega arith;
}

confirm_saves_example :
    (get_sign_in_policy number_of (confirm_reauth number_of of_text filled odd).1 ≡ record {
      reauth = record { days = int 7; hours = int 12 };
      mfa_required = (get_sign_in_policy number_of odd).mfa_required;
    })
    × ((confirm_reauth number_of of_text filled odd).0.panel ≡ none)
    × ((confirm_reauth number_of of_text filled odd).0.error ≡ none)
confirm_saves_example = confirm_saves number_of of_text filled odd 7 12 refl week

-- The text of a number that the inputs show.
abbrev text_of : Num → String
text_of n = "7"

choice_shown_example :
    ((view text_of
        (get_sign_in_policy number_of (after_choice number_of of_text text_of yes filled odd).1)
        (after_choice number_of of_text text_of yes filled odd).0).panel
      ≡ closed)
    × ((view text_of
          (get_sign_in_policy number_of (after_choice number_of of_text text_of yes filled odd).1)
          (after_choice number_of of_text text_of yes filled odd).0).mfa_card
        ≡ record { title = "MFA Not Required"; description = "MFA Required" })
    × ((mount number_of text_of (after_choice number_of of_text text_of yes filled odd).1).mfa_mode
        ≡ yes)
    × ((mount number_of text_of (after_choice number_of of_text text_of yes filled odd).1).days
        ≡ "7")
    × ((mount number_of text_of (after_choice number_of of_text text_of yes filled odd).1).hours
        ≡ "7")
choice_shown_example = choice_shown number_of of_text text_of yes filled odd refl
