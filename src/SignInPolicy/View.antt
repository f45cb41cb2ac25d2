-- ===== src/SignInPolicy/View.antt =====
-- frontend/src/pages/policy/SignInPolicyPage.tsx: what the page shows of its state and of the policy,
-- which it reads again whenever the panel changes. The heading and the fixed texts of the panels are
-- left out.
use group_management_ui_back.Prelude.{
  String, ◌≡◌, refl, ap, ◌∙◌, true, Option, none, some, if◌then◌else◌,
}
use group_management_ui_back.Json.{Num, Json, unsigned_zero}
use group_management_ui_back.Storage.{Browser}
use group_management_ui_back.SignInPolicy.{SignInPolicyState, get_sign_in_policy}
use group_management_ui_back.SignInPolicy.Reading.{get-save_mfa}
use group_management_ui_back.SignInPolicy.Page.{
  Panel, reauth, mfa, MfaMode, no, yes, Invalid, State, is_yes, mode_of, mount, summaries,
  choose_mfa, confirm_mfa,
}

-- The panel of a card: the inputs with the error below them, or the choice.
pub data PanelView : Type 0 where
  closed : PanelView
  reauth_form : (days hours : String) (error : Option Invalid) → PanelView
  mfa_form : MfaMode → PanelView

abbrev pub panel_view : Option Panel → State → PanelView
panel_view none s = closed
panel_view (some reauth) s = reauth_form s.days s.hours s.error
panel_view (some mfa) s = mfa_form s.mfa_mode

-- The title of a card is a fixed text, its description the summary of the policy.
pub record Card : Type 0 where
  pub title : String
  pub description : String

pub record View : Type 0 where
  pub reauth_card : Card
  pub mfa_card : Card
  pub panel : PanelView

unfoldable pub view : (Num → String) → SignInPolicyState → State → View
unfolding summaries
view text_of policy s =
    let (reauth_summary, mfa_summary) = summaries text_of policy in
    record {
      reauth_card = record { title = "Authenticate every 30 days"; description = reauth_summary };
      mfa_card = record { title = "MFA Not Required"; description = mfa_summary };
      panel = panel_view s.panel s;
    }

mode_of-is_yes : (m : MfaMode) → mode_of (is_yes m) ≡ m
mode_of-is_yes no = refl
mode_of-is_yes yes = refl

module _ (number_of : Json → Num) (of_text : String → Num) (text_of : Num → String) where
  -- A choice that is confirmed.
  abbrev pub after_choice : MfaMode → State → Browser Json → State × Browser Json
  after_choice m s b = confirm_mfa number_of of_text (choose_mfa m s) b

  -- Where `window` is defined, a choice that is confirmed closes the panel, is what the description on
  -- the card then says, under the title "MFA Not Required" whichever it is, and is what the page starts
  -- with when it is opened again; the interval stays, but for the sign of 0.
  pub choice_shown :
      (m : MfaMode) (s : State) (b : Browser Json)
      → b.has_window ≡ true
      → ((view text_of
            (get_sign_in_policy number_of (after_choice m s b).1)
            (after_choice m s b).0).panel
          ≡ closed)
        × ((view text_of
              (get_sign_in_policy number_of (after_choice m s b).1)
              (after_choice m s b).0).mfa_card
            ≡ record {
              title = "MFA Not Required";
              description = if is_yes m then "MFA Required" else "MFA Not Required";
            })
        × ((mount number_of text_of (after_choice m s b).1).mfa_mode ≡ m)
        × ((mount number_of text_of (after_choice m s b).1).days
            ≡ text_of (unsigned_zero (get_sign_in_policy number_of b).reauth.days))
        × ((mount number_of text_of (after_choice m s b).1).hours
            ≡ text_of (unsigned_zero (get_sign_in_policy number_of b).reauth.hours))
  unfolding view summaries mount confirm_mfa choose_mfa
  choice_shown m s b w =
      let read = get-save_mfa number_of (is_yes m) b w in
      (
        refl,
        ap
            (λ p. record {
              title = "MFA Not Required";
              description = if p.mfa_required then "MFA Required" else "MFA Not Required";
            })
            read,
        ap (λ p. mode_of p.mfa_required) read ∙ mode_of-is_yes m,
        ap (λ p. text_of p.reauth.days) read,
        ap (λ p. text_of p.reauth.hours) read,
      )
