-- ===== src/Resources.antt =====
-- frontend/src/pages/resources/ResourcesPage.tsx put together with its two modals,
-- add-resource-modal.tsx and edit-resource-modal.tsx of frontend/components/dashboard/resources.
-- The state of the page is that of Pages, the state of a modal that of AddResource or EditResource.
-- While the page loads it shows a spinner in place of all else, which unmounts the modals: when they
-- are mounted again their state is new, and what is in flight no longer reaches it.
pub mod Events
pub mod Fitness
pub mod Requests
pub mod Closing
mod Tests
use group_management_ui_back.Prelude.{
  ℕ, suc, String, Bool, true, false, ◌&&◌, not, Option, none, some, List, [], ◌∷◌, if◌then◌else◌,
  eqb,
}
use group_management_ui_back.Json.{Num}
use group_management_ui_back.Types.{Resource, RemoteNetwork}
use group_management_ui_back.Storage.{Browser}
use group_management_ui_back.ResourcePolicies.{Parsed, ResourcePolicy}
use group_management_ui_back.Api.{ResourceData}
use group_management_ui_back.Pages.{
  Inventory, mounted_with, load_data, data_loaded, handle_edit_click, close_edit, open_modal,
  close_modal,
}
use group_management_ui_back.AddResource
use group_management_ui_back.EditResource

-- The calls of the client that change something
pub data Call : Type 0 where
  add_resource : ResourceData → Call
  update_resource : String → ResourceData → Call

-- `mounts` counts how often the modals were mounted.
pub record Page : Type 0 where
  pub inventory : Inventory
  pub add : AddResource.State
  pub edit : EditResource.State
  pub browser : Browser Parsed
  pub mounts : ℕ
  pub calls : List Call

-- The page gives the modal for a new resource no network.
abbrev pub props : AddResource.Props
props = record { default_network_id = none; lock_network = false }

abbrev pub is_loading : Page → Bool
is_loading s = s.inventory.page.loading

-- The spinner unmounts the modals.
unfoldable pub show_spinner : Page → Page
unfolding AddResource.initial EditResource.initial
show_spinner s = record s {
  add = AddResource.initial props;
  edit = EditResource.initial;
  mounts = suc s.mounts;
}

-- The effect of the modal for a new resource when it opens, or is mounted open
abbrev pub add_effect : Page → Page
add_effect s =
    let (add, browser) = AddResource.open_modal props s.add s.browser in
    record s { add = add; browser = browser }

-- and that of the modal for the resource that is edited.
abbrev pub edit_effect : Page → Page
edit_effect s = record s { edit = EditResource.open_modal s.inventory.editing_resource s.edit }

abbrev pub if_open : Bool → (Page → Page) → Page → Page
if_open b f s = if b then f s else s

abbrev pub effects : Page → Page
effects s =
    if_open s.inventory.is_edit_modal_open edit_effect
      (if_open s.inventory.page.add_open add_effect s)

-- `loadData` before its `await`
unfoldable pub start_load : Page → Page
unfolding load_data show_spinner
start_load s = show_spinner (record s { inventory = load_data s.inventory })

unfoldable pub first_page : Browser Parsed → Page
unfolding start_load AddResource.initial EditResource.initial
first_page b = start_load (record {
  inventory = record {
    page = mounted_with ([], []);
    is_edit_modal_open = false;
    editing_resource = none;
  };
  add = AddResource.initial props;
  edit = EditResource.initial;
  browser = b;
  mounts = 0;
  calls = [];
})

-- and after it, with both answers: modals that the spinner had unmounted are mounted again.
unfoldable pub finish_load : Option (List Resource) → Option (List RemoteNetwork) → Page → Page
unfolding data_loaded
finish_load resources networks s =
    let s' : Page = record s { inventory = data_loaded resources networks s.inventory } in
    if is_loading s then effects s' else s'

-- The button "Add Resource" of the page
unfoldable pub open_add : Page → Page
unfolding open_modal
open_add s =
    add_effect (record s { inventory = record s.inventory { page = open_modal s.inventory.page } })

-- `handleClose` of the modal for a new resource
abbrev closed_add : Page → Page
closed_add s = record s { inventory = record s.inventory { page = close_modal s.inventory.page } }

unfoldable pub close_add : Page → Page
unfolding AddResource.handle_close close_modal
close_add s = record (closed_add s) { add = AddResource.handle_close props s.add }

-- What is in flight is the mount of the modal that waits.
abbrev pub adding : Option (ResourceData × List ResourcePolicy) → Page → Option ℕ × Page
adding none s = (none, s)
adding (some (d, policies)) s = (some s.mounts, record s { calls = add_resource d ∷ s.calls })

abbrev pub updating : Option (String × ResourceData) → Page → Option ℕ × Page
updating none s = (none, s)
updating (some (id, d)) s = (some s.mounts, record s { calls = update_resource id d ∷ s.calls })

-- `handleSubmit` of the modal for a new resource before its `await`
unfoldable pub start_add : Page → Option ℕ × Page
unfolding AddResource.start_submit
start_add s =
    let (request, add) = AddResource.start_submit s.add in adding request (record s { add = add })

-- and after it: `onResourceAdded` loads the page, which unmounts the modal, and `onClose` closes it.
unfoldable pub finish_add : Bool → ℕ → Page → Page
unfolding start_load close_modal AddResource.finish_submit
finish_add true flight s = closed_add (start_load s)
finish_add false flight s =
    if eqb flight s.mounts
    then record s { add = (AddResource.finish_submit props false [] s.add).0 }
    else s

-- The button of a row, and `onClose` of the modal for the resource that is edited
unfoldable pub click_edit : Resource → Page → Page
unfolding handle_edit_click EditResource.open_modal
click_edit r s = edit_effect (record s { inventory = handle_edit_click r s.inventory })

unfoldable pub cancel_edit : Page → Page
unfolding close_edit
cancel_edit s = record s { inventory = close_edit s.inventory }

-- `handleSubmit` of that modal before its `await`, and after it
unfoldable pub start_save : (String → Num) → Page → Option ℕ × Page
unfolding EditResource.start_submit
start_save number_of s =
    let (request, edit) = EditResource.start_submit number_of s.inventory.editing_resource s.edit in
    updating request (record s { edit = edit })

unfoldable pub finish_save : Bool → ℕ → Page → Page
unfolding start_load cancel_edit EditResource.finish_submit
finish_save true flight s = cancel_edit (start_load s)
finish_save false flight s =
    if eqb flight s.mounts
    then record s { edit = (EditResource.finish_submit false s.edit).0 }
    else s

-- The networks that a modal asks for when it opens come, or do not.
unfoldable pub finish_networks : Bool → Option (List RemoteNetwork) → ℕ → Page → Page
unfolding AddResource.receive_networks EditResource.receive_networks
finish_networks for_add networks flight s =
    if eqb flight s.mounts
    then if for_add
      then record s { add = AddResource.receive_networks networks s.add }
      else record s { edit = EditResource.receive_networks networks s.edit }
    else s
