-- ===== src/Resources/Events.antt =====
-- frontend/src/pages/resources/ResourcesPage.tsx with its modals: what can happen to the page.
use group_management_ui_back.Prelude.{
  ℕ, String, Bool, ◌&&◌, not, Option, List, [], ◌∷◌, if◌then◌else◌,
}
use group_management_ui_back.Json.{Num}
use group_management_ui_back.Types.{Resource, RemoteNetwork}
use group_management_ui_back.AddResource
use group_management_ui_back.EditResource
use group_management_ui_back.Resources.{
  Page, props, is_loading, finish_load, open_add, close_add, start_add, finish_add, click_edit,
  cancel_edit, start_save, finish_save, finish_networks,
}

-- What happens to the page: the ends of what is in flight, and what the user does with the page or
-- with a modal while it is shown.
pub data Event : Type 0 where
  load_ends : Option (List Resource) → Option (List RemoteNetwork) → Event
  networks_end : Bool → Option (List RemoteNetwork) → ℕ → Event
  opens cancels submits closes_edit saves : Event
  enters : AddResource.Input → Event
  edits : Resource → Event
  edit_enters : EditResource.Input → Event
  add_ends save_ends : Bool → ℕ → Event

-- A modal is on the screen.
abbrev pub shows_add : Page → Bool
shows_add s = s.inventory.page.add_open && not (is_loading s)

abbrev pub shows_edit : Page → Bool
shows_edit s = s.inventory.is_edit_modal_open && not (is_loading s)

-- Only what is on the screen can be used.
abbrev pub when : Bool → Page → Page → Page
when b t s = if b then t else s

module _ (number_of : String → Num) where
  unfoldable pub happen : Event → Page → Page
  unfolding AddResource.enter EditResource.enter AddResource.view EditResource.view
  happen (load_ends resources networks) s = finish_load resources networks s
  happen (networks_end for_add networks flight) s = finish_networks for_add networks flight s
  happen opens s = when (not (is_loading s)) (open_add s) s
  happen cancels s = when (shows_add s) (close_add s) s
  happen submits s =
      when (shows_add s && not (AddResource.view props s.add).submit_disabled) (start_add s).1 s
  happen closes_edit s = when (shows_edit s) (cancel_edit s) s
  happen saves s =
      when (shows_edit s && not (EditResource.view s.edit).submit_disabled)
        (start_save number_of s).1 s
  happen (enters i) s = when (shows_add s) (record s { add = AddResource.enter i s.add }) s
  happen (edits r) s = when (not (is_loading s)) (click_edit r s) s
  happen (edit_enters i) s = when (shows_edit s) (record s { edit = EditResource.enter i s.edit }) s
  happen (add_ends ok flight) s = finish_add ok flight s
  happen (save_ends ok flight) s = finish_save ok flight s

  abbrev pub happens : List Event → Page → Page
  happens [] s = s
  happens (e ∷ es) s = happens es (happen e s)
