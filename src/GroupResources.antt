-- ===== src/GroupResources.antt =====
-- frontend/components/dashboard/groups/add-resources-modal.tsx: the choice of resources that are added
-- to a group. A handler is split at its `await`; `toLowerCase` is a parameter. A `Set` is the list of
-- its elements in the order of their insertion.
pub mod Choosing
mod Tests
use group_management_ui_back.Prelude.{
  ℕ, String, Bool, true, false, ◌||◌, ◌≡◌, not, Option, none, some, List, [], ◌∷◌, ◌++◌, map,
  filter, length, includes, if◌then◌else◌, eqb, ◌==◌, contains,
}
use group_management_ui_back.Types.{Resource}

pub record Modal : Type 0 where
  pub available_resources : List Resource
  pub selected_resource_ids : List String
  pub loading : Bool
  pub is_adding : Bool
  pub search_term : String

-- What the modal calls: its two callbacks and the client, newest first.
pub data Call : Type 0 where
  get_resources on_close on_resources_added : Call
  add_group_resources : String → List String → Call

unfoldable pub mounted : Modal
mounted = record {
  available_resources = [];
  selected_resource_ids = [];
  loading = true;
  is_adding = false;
  search_term = "";
}

-- The effect that runs when `isOpen` changes
unfoldable pub open_effect : Bool → Modal → List Call × Modal
open_effect is_open s =
    if is_open then (get_resources ∷ [], record s { loading = true }) else ([], s)

unfoldable pub finish_load : Option (List Resource) → Modal → Modal
finish_load none s = record s { loading = false }
finish_load (some resources) s = record s { available_resources = resources; loading = false }

-- `set.add(x)` and `set.delete(x)`
unfoldable pub set_add : String → List String → List String
set_add x xs = if includes x xs then xs else xs ++ (x ∷ [])

unfoldable pub set_delete : String → List String → List String
set_delete x xs = filter (λ y. not (y == x)) xs

abbrev pub checked : String → Bool → List String → List String
checked id true xs = set_add id xs
checked id false xs = set_delete id xs

unfoldable pub handle_checkbox_change : String → Bool → Modal → Modal
handle_checkbox_change id is_checked s = record s {
  selected_resource_ids = checked id is_checked s.selected_resource_ids;
}

-- `handleAddResources` before its `await`
unfoldable pub start_add : String → Modal → List Call × Modal
start_add group s =
    (add_group_resources group s.selected_resource_ids ∷ [], record s { is_adding = true })

-- and after it
unfoldable pub finish_add : Bool → Modal → List Call × Modal
finish_add true s =
    (on_close ∷ on_resources_added ∷ [], record s { selected_resource_ids = []; is_adding = false })
finish_add false s = ([], record s { is_adding = false })

-- `onClose`, by which the dialog and "Cancel" close the modal
unfoldable pub close : Modal → List Call × Modal
close s = (on_close ∷ [], s)

unfoldable pub add_disabled : Modal → Bool
add_disabled s = eqb (length s.selected_resource_ids) 0 || s.is_adding

module _ (lower : String → String) where
  -- `filteredResources`
  unfoldable pub filtered_resources : Modal → List Resource
  unfolding contains
  filtered_resources s =
      filter
        (λ r.
          contains (lower r.name) (lower s.search_term)
          || contains (lower r.address) (lower s.search_term))
        s.available_resources

  -- The check boxes: the resources that are listed, each with its mark
  unfoldable pub boxes : Modal → List (Resource × Bool)
  unfolding filtered_resources
  boxes s = map (λ r. (r, includes r.id s.selected_resource_ids)) (filtered_resources s)
