-- ===== src/Resources/Requests.antt =====
-- frontend/src/pages/resources/ResourcesPage.tsx with its modals: what is asked of the server, whatever
-- happens to the page.
use group_management_ui_back.Prelude.{String, ◌&&◌, not, List, [], ◌∷◌, All}
use group_management_ui_back.Json.{Num}
use group_management_ui_back.Types.{Resource}
use group_management_ui_back.Storage.{Browser}
use group_management_ui_back.ResourcePolicies.{Parsed}
use group_management_ui_back.Pages.{
  load_data, handle_edit_click, close_edit, open_modal, close_modal,
}
use group_management_ui_back.AddResource
use group_management_ui_back.EditResource
use group_management_ui_back.Resources.{
  Page, props, is_loading, show_spinner, start_load, first_page, open_add, close_add, start_add,
  click_edit, cancel_edit, start_save,
}
use group_management_ui_back.Resources.Events.{
  Event, load_ends, networks_end, opens, cancels, submits, closes_edit, saves, enters, edits,
  edit_enters, add_ends, save_ends, shows_add, shows_edit, happen, happens,
}
use group_management_ui_back.Resources.Fitness.{
  OpensOnly, IsFit, IsGood, add_effect-IsGood, enter-NoSpace, finish_add-IsGood, finish_load-IsGood,
  finish_networks-IsGood, finish_save-IsGood, saving-IsGood, start_add-IsGood, when-IsGood,
}

module _ (P : Resource → Type 0) where
  module _ (number_of : String → Num) where
    happen-IsGood :
        (e : Event) (s : Page) → OpensOnly P e → IsGood P s → IsGood P (happen number_of e s)
    unfolding happen open_add close_add click_edit cancel_edit start_save handle_edit_click
        close_edit open_modal close_modal AddResource.handle_close AddResource.reset_form
    happen-IsGood (load_ends rs ns) s o h = finish_load-IsGood P rs ns s h
    happen-IsGood (networks_end b ns flight) s o h = finish_networks-IsGood P b ns flight s h
    happen-IsGood opens s o h =
        when-IsGood P (not (is_loading s)) (open_add s) s
          (λ _.
            add_effect-IsGood P
              (record s { inventory = record s.inventory { page = open_modal s.inventory.page } })
              (record { address = h.address; editing = h.editing; fit = h.fit }))
          h
    happen-IsGood cancels s o h =
        when-IsGood P (shows_add s) (close_add s) s
          (λ _. record { address = tt; editing = h.editing; fit = h.fit }) h
    happen-IsGood submits s o h =
        when-IsGood P (shows_add s && not (AddResource.view props s.add).submit_disabled)
          (start_add s).1 s (λ _. start_add-IsGood P s h) h
    happen-IsGood closes_edit s o h =
        when-IsGood P (shows_edit s) (cancel_edit s) s
          (λ _. record { address = h.address; editing = tt; fit = h.fit }) h
    happen-IsGood saves s o h =
        when-IsGood P (shows_edit s && not (EditResource.view s.edit).submit_disabled)
          (start_save number_of s).1 s
          (λ _. saving-IsGood P number_of s.inventory.editing_resource s h h.editing) h
    happen-IsGood (enters i) s o h =
        when-IsGood P (shows_add s) (record s { add = AddResource.enter i s.add }) s
          (λ _. record {
            address = enter-NoSpace P i s.add h.address;
            editing = h.editing;
            fit = h.fit;
          })
          h
    happen-IsGood (edits r) s o h =
        when-IsGood P (not (is_loading s)) (click_edit r s) s
          (λ _. record { address = h.address; editing = o; fit = h.fit }) h
    happen-IsGood (edit_enters i) s o h =
        when-IsGood P (shows_edit s) (record s { edit = EditResource.enter i s.edit }) s
          (λ _. record { address = h.address; editing = h.editing; fit = h.fit }) h
    happen-IsGood (add_ends ok flight) s o h = finish_add-IsGood P ok flight s h
    happen-IsGood (save_ends ok flight) s o h = finish_save-IsGood P ok flight s h

    happens-Good :
        (es : List Event) (s : Page)
        → All (OpensOnly P) es
        → IsGood P s
        → IsGood P (happens number_of es s)
    happens-Good [] s o h = h
    happens-Good (e ∷ es) s (o, os) h =
        happens-Good es (happen number_of e s) os (happen-IsGood e s o h)

    -- Whatever happens to the page of the resources, what it asks of the server is that a resource with a
    -- network, a name and an address is added, with no white space in the address, or that such data be
    -- written to a resource that was opened for editing.
    pub happens-AllFit :
        (es : List Event) (b : Browser Parsed)
        → All (OpensOnly P) es
        → All (IsFit P) (happens number_of es (first_page b)).calls
    unfolding first_page
    happens-AllFit es b o =
        (happens-Good es (first_page b) o (record {
          address = unfold start_load show_spinner AddResource.initial in tt;
          editing = unfold start_load show_spinner load_data in tt;
          fit = unfold start_load show_spinner in tt;
        })).fit
