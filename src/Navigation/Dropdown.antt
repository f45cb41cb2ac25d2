-- ===== src/Navigation/Dropdown.antt =====
-- frontend/components/dashboard/policy/policy-type-dropdown.tsx: the choice and the path agree.
use group_management_ui_back.Prelude.{◌≡◌, refl}
use group_management_ui_back.Navigation.{
  PolicyView, resource, signin, devices, view_from_path, path_from_view,
}

-- The view that a choice leads to is the one that was chosen.
pub view_from_path-path_from_view : (v : PolicyView) → view_from_path (path_from_view v) ≡ v
unfolding view_from_path path_from_view
view_from_path-path_from_view resource = refl
view_from_path-path_from_view signin = refl
view_from_path-path_from_view devices = refl
