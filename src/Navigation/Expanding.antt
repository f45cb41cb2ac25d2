-- ===== src/Navigation/Expanding.antt =====
-- frontend/components/dashboard/sidebar.tsx: which items are open after a change of the path and
-- after a click.
use group_management_ui_back.Prelude.{
  String, Bool, true, ◌||◌, not, ◌≡◌, refl, arith, List, [], ◌∷◌, All, Dict, lookup, ◌==◌,
  if◌then◌else◌, All-imp, ap, ◌∙◌, ◌++◌, inl, inr, Bool-cases,
}
use group_management_ui_back.Navigation.{
  NavItem, nav_items, active_child, updates, auto_expand, is_expanded, toggle_expanded,
  spread_updates,
}

-- After a change of the path, an item is open if it was open or has a child that leads there.
abbrev pub IsOpened : String → Dict Bool → NavItem → Type 0
IsOpened path prev item =
    is_expanded item.href (auto_expand path prev)
    ≡ (active_child path item.children || is_expanded item.href prev)

expanded_or :
    (href : String) (new prev : Dict Bool)
    → All (λ e. e.1 ≡ true) new
    → is_expanded href (new ++ prev) ≡ (is_expanded href new || is_expanded href prev)
unfolding lookup
expanded_or href [] prev h = refl
expanded_or href ((k, b) ∷ new) prev (h, hs) = ground (arith, expanded_or href new prev hs)

updates-true : (path : String) (items : List NavItem) → All (λ e. e.1 ≡ true) (updates path items)
updates-true path [] = tt
updates-true path (item ∷ items) = elim (Bool-cases (active_child path item.children)) [
  | inl e ↦ rw e (refl, updates-true path items)
  | inr e ↦ rw e (updates-true path items)
]

spread_updates_lem : (new prev : Dict Bool) → spread_updates new prev ≡ new ++ prev
spread_updates_lem [] prev = refl
spread_updates_lem (u ∷ us) prev = refl

IsUpdated : String → NavItem → Type 0
IsUpdated path item =
    is_expanded item.href (updates path nav_items) ≡ active_child path item.children

updated : (path : String) → All (IsUpdated path) nav_items
unfolding IsUpdated lookup
updated path = (ground arith, (ground arith, (ground arith, (ground arith, (ground arith, tt)))))

-- After a change of the path, an item of the sidebar is open just where it was open before or one
-- of its children leads to the path.
pub auto_expand_lem : (path : String) (prev : Dict Bool) → All (IsOpened path prev) nav_items
unfolding auto_expand IsUpdated
auto_expand_lem path prev =
    All-imp (IsUpdated path) (IsOpened path prev)
      (λ item h. rw (spread_updates_lem (updates path nav_items) prev) (
        expanded_or item.href (updates path nav_items) prev (updates-true path nav_items)
        ∙ ap (λ b. b || is_expanded item.href prev) h))
      nav_items (updated path)

-- A click on an item turns its own state over and leaves that of every other.
pub toggle_expanded_lem :
    (href other : String) (prev : Dict Bool)
    → is_expanded other (toggle_expanded href prev)
      ≡ (if href == other then not (is_expanded href prev) else is_expanded other prev)
unfolding toggle_expanded lookup
toggle_expanded_lem href other prev = ground arith
