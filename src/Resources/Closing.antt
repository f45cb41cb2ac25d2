-- ===== src/Resources/Closing.antt =====
-- frontend/src/pages/resources/ResourcesPage.tsx: a resource that is edited, from the button of its row
-- to the reload, and what a reload does to it on the way.
use group_management_ui_back.Prelude.{
  ℕ, Bool, ap, ◌∙◌, String, ◌≡◌, refl, true, false, Option, none, some, List, [], ◌∷◌,
}
use group_management_ui_back.Json.{Num}
use group_management_ui_back.Types.{Resource, RemoteNetwork}
use group_management_ui_back.Pages.{
  load_data, data_loaded, handle_edit_click, close_edit, finish, start_loudly, close_modal,
}
use group_management_ui_back.EditResource
use group_management_ui_back.Resources.{
  if_open, add_effect, update_resource, Page, is_loading, show_spinner, start_load, finish_load,
  finish_add, click_edit, cancel_edit, start_save, finish_save,
}

-- Any inputs, one after the other
abbrev pub enter_all : List EditResource.Input → EditResource.State → EditResource.State
enter_all [] s = s
enter_all (i ∷ is) s = enter_all is (EditResource.enter i s)

-- A resource is opened for editing and the inputs are made.
unfoldable pub typed : Resource → List EditResource.Input → Page → Page
unfolding click_edit
typed r is s = let s' = click_edit r s in record s' { edit = enter_all is s'.edit }

-- The form that a resource is opened in.
abbrev pub form_of : Resource → Page → EditResource.State
form_of r s = EditResource.open_modal (some r) s.edit

-- The effect of the modal for a new resource concerns that modal and the stored policies alone.
add_effect-keeps :
    (b : Bool) (s : Page)
    → ((if_open b add_effect s).calls ≡ s.calls)
      × ((if_open b add_effect s).inventory ≡ s.inventory)
      × ((if_open b add_effect s).edit ≡ s.edit)
add_effect-keeps true s = (refl, refl, refl)
add_effect-keeps false s = (refl, refl, refl)

-- A page that shows what was loaded, with no resource opened for editing
abbrev pub Rests : List Resource → List RemoteNetwork → Page → Type 0
Rests rs ns s =
    (s.inventory.page.contents ≡ (rs, ns))
    × (is_loading s ≡ false)
    × (s.inventory.is_edit_modal_open ≡ false)
    × (s.inventory.editing_resource ≡ none)

-- The end of a save that succeeds, and that of the load that it starts
save_lands :
    (rs : List Resource) (ns : List RemoteNetwork) (flight : ℕ) (s : Page)
    → ((finish_load (some rs) (some ns) (finish_save true flight s)).calls ≡ s.calls)
      × Rests rs ns (finish_load (some rs) (some ns) (finish_save true flight s))
unfolding finish_save finish_load start_load show_spinner load_data data_loaded cancel_edit
    close_edit finish start_loudly
save_lands rs ns flight s =
    let keeps = add_effect-keeps s.inventory.page.add_open (record (finish_save true flight s) {
      inventory = data_loaded (some rs) (some ns) (finish_save true flight s).inventory;
    }) in
    (
      keeps.0,
      (
        ap (λ i. i.page.contents) keeps.1,
        ap (λ i. i.page.loading) keeps.1,
        ap (λ i. i.is_edit_modal_open) keeps.1,
        ap (λ i. i.editing_resource) keeps.1,
      ),
    )

module _ (number_of : String → Num) where
  -- "Save" succeeds, and the page loads.
  unfoldable pub saved : List Resource → List RemoteNetwork → Page → Page
  unfolding start_save finish_save finish_load
  saved rs ns s =
      finish_load (some rs) (some ns) (finish_save true s.mounts (start_save number_of s).1)

  saved_call :
      (r : Resource) (is : List EditResource.Input) (s : Page)
      → EditResource.can_submit (enter_all is (form_of r s)) ≡ true
      → (start_save number_of (typed r is s)).1.calls
        ≡ update_resource r.id (EditResource.payload number_of (enter_all is (form_of r s)))
          ∷ s.calls
  unfolding start_save EditResource.start_submit typed click_edit handle_edit_click
  saved_call r is s h = rw h refl

  -- A resource that is opened, changed by any inputs and saved, where the form can then be
  -- submitted: the one call made is an update of this resource with what the form makes of it and
  -- the inputs; once it has succeeded and the page has loaded, the page shows what was loaded, and
  -- no resource is opened for editing.
  pub edit_lands :
      (r : Resource) (is : List EditResource.Input) (rs : List Resource) (ns : List RemoteNetwork)
      (s : Page)
      → EditResource.can_submit (enter_all is (form_of r s)) ≡ true
      → ((saved rs ns (typed r is s)).calls
          ≡ update_resource r.id (EditResource.payload number_of (enter_all is (form_of r s)))
            ∷ s.calls)
        × Rests rs ns (saved rs ns (typed r is s))
  unfolding saved
  edit_lands r is rs ns s h =
      let t = typed r is s in
      let landed = save_lands rs ns t.mounts (start_save number_of t).1 in
      (landed.0 ∙ saved_call r is s h, landed.1)

-- An addition that ends while a resource is edited takes away what was typed: once the page has
-- loaded, the form is open as it was when it was first opened, with the resource as it was before
-- the load.
pub add_resets_edit :
    (resources : Option (List Resource)) (networks : Option (List RemoteNetwork)) (flight : ℕ)
    (s : Page)
    → s.inventory.is_edit_modal_open ≡ true
    → ((finish_load resources networks (finish_add true flight s)).inventory.is_edit_modal_open
        ≡ true)
      × ((finish_load resources networks (finish_add true flight s)).edit
          ≡ EditResource.open_modal s.inventory.editing_resource EditResource.initial)
unfolding finish_load finish_add start_load show_spinner load_data data_loaded finish start_loudly
    close_modal
add_resets_edit none none flight s h = rw h (refl, refl)
add_resets_edit none (some ns) flight s h = rw h (refl, refl)
add_resets_edit (some rs) none flight s h = rw h (refl, refl)
add_resets_edit (some rs) (some ns) flight s h = rw h (refl, refl)
