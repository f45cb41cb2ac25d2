-- ===== src/Resources/Tests.antt =====
-- Runs of the page of the resources, and its theorems at concrete inputs.
use group_management_ui_back.Prelude.{
  String, ◌≡◌, refl, true, false, none, some, List, [], ◌∷◌, All, if◌then◌else◌, ◌==◌,
}
use group_management_ui_back.Json.{Num, int, nan}
use group_management_ui_back.Types.{Resource, browser, tcp}
use group_management_ui_back.Storage.{Browser}
use group_management_ui_back.ResourcePolicies.{Parsed}
use group_management_ui_back.EditResource
use group_management_ui_back.Resources.{
  Page, first_page, click_edit, update_resource, finish_load, finish_add, start_save, cancel_edit,
  finish_save,
}
use group_management_ui_back.Resources.Events.{
  Event, load_ends, closes_edit, saves, edits, edit_enters, save_ends, happen, happens,
}
use group_management_ui_back.Resources.Fitness.{IsFit}
use group_management_ui_back.Resources.Requests.{happens-AllFit}
use group_management_ui_back.Resources.Closing.{
  enter_all, form_of, typed, saved, Rests, edit_lands, add_resets_edit,
}

-- `Number` on the one text that the tests read.
abbrev number_of : String → Num
number_of s = if s == "80" then int 80 else nan

abbrev web : Resource
web = record {
  id = "r1";
  name = "web";
  kind = browser;
  address = "10.0.0.2";
  protocol = tcp;
  port_from = some 80;
  port_to = none;
  alias = none;
  description = "";
  remote_network_id = some "n1";
}

abbrev wiki : Resource
wiki = record web { id = "r2"; name = "wiki" }

abbrev empty_browser : Browser Parsed
empty_browser = record { has_window = true; item = none }

-- The page loads two resources; one is saved, its form is closed, and the other one is opened and
-- changed before the save has ended.
abbrev overlap : List Event
overlap =
    load_ends (some (web ∷ wiki ∷ [])) (some [])
    ∷ edits web
    ∷ saves
    ∷ closes_edit
    ∷ edits wiki
    ∷ edit_enters (EditResource.name_input "notes")
    ∷ []

abbrev before_end : Page
before_end = happens number_of overlap (first_page empty_browser)

abbrev after_end : Page
after_end = happen number_of (save_ends true 1) before_end

overlap_test :
    (before_end.inventory.is_edit_modal_open ≡ true)
    × (before_end.edit.name ≡ "notes")
    × (after_end.inventory.is_edit_modal_open ≡ false)
unfolding happen finish_load first_page click_edit start_save cancel_edit finish_save
overlap_test = (refl, refl, refl)

abbrev Saved : Resource → Type 0
Saved r = r.id ≡ "r1"

happens-AllFit_example :
    All
      (IsFit Saved)
      (happens number_of
        (load_ends (some (web ∷ [])) (some []) ∷ edits web ∷ saves ∷ [])
        (first_page empty_browser)).calls
happens-AllFit_example =
    happens-AllFit Saved number_of (load_ends (some (web ∷ [])) (some []) ∷ edits web ∷ saves ∷ [])
      empty_browser (tt, (refl, (tt, tt)))

edit_lands_example :
    ((saved number_of
        (wiki ∷ [])
        []
        (typed web (EditResource.name_input "site" ∷ []) before_end)).calls
      ≡ update_resource "r1" (
          EditResource.payload number_of
            (enter_all (EditResource.name_input "site" ∷ []) (form_of web before_end)))
        ∷ before_end.calls)
    × Rests (wiki ∷ []) [] (
        saved number_of (wiki ∷ []) [] (typed web (EditResource.name_input "site" ∷ []) before_end))
unfolding EditResource.can_submit EditResource.enter EditResource.open_modal
edit_lands_example =
    edit_lands number_of web (EditResource.name_input "site" ∷ []) (wiki ∷ []) [] before_end refl

add_resets_edit_example :
    ((finish_load none none (finish_add true 0 before_end)).inventory.is_edit_modal_open ≡ true)
    × ((finish_load none none (finish_add true 0 before_end)).edit
        ≡ EditResource.open_modal (some wiki) EditResource.initial)
unfolding happen finish_load first_page click_edit start_save cancel_edit
add_resets_edit_example = add_resets_edit none none 0 before_end refl
