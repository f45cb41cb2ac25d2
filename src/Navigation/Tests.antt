-- ===== src/Navigation/Tests.antt =====
-- frontend/components/dashboard/sidebar.tsx: the sidebar at concrete paths.
use group_management_ui_back.Prelude.{String, ◌≡◌, ◌≤◌, refl, [], ◌∷◌, filter, length, map}
use group_management_ui_back.Navigation.{nav_items, is_under, is_active, sidebar}
use group_management_ui_back.Navigation.Marking.{one_active}

abbrev group_path : String
group_path = "/dashboard/groups/g1"

marked_labels :
    map (λ e. e.item.label) (filter (λ e. e.marked) (sidebar group_path [])) ≡ "Team" ∷ []
unfolding sidebar is_active is_under
marked_labels = refl

one_active_example : length (filter (is_active group_path) nav_items) ≤ 1
one_active_example = one_active group_path
