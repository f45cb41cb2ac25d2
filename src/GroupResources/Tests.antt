-- ===== src/GroupResources/Tests.antt =====
-- frontend/components/dashboard/groups/add-resources-modal.tsx: a choice of two resources.
use group_management_ui_back.Prelude.{String, Bool, ◌≡◌, true, false, List, [], ◌∷◌, includes}
use group_management_ui_back.GroupResources.{mounted, start_add}
use group_management_ui_back.GroupResources.Choosing.{
  changes, marks, selected, sent_ids, IsDistinct, start_add_refines,
}

abbrev clicks : List (String × Bool)
clicks = ("r1", true) ∷ ("r2", true) ∷ ("r1", false) ∷ ("r3", true) ∷ []

start_add_refines_example :
    ((λ x. includes x (sent_ids (start_add "g1" (changes clicks mounted)).0))
      ≡ marks clicks (selected mounted))
    × IsDistinct (sent_ids (start_add "g1" (changes clicks mounted)).0)
unfolding mounted
start_add_refines_example = start_add_refines "g1" clicks mounted tt
