-- ===== src/AccessRules/Showing.antt =====
-- What the table shows for groups and counts.
use mathlib.Core.Option
use group_management_ui_back.Prelude.{
  Dict, lookup, or_else, String, ◌≡◌, refl, ◌∙◌, Option, none, some, List, [], ◌∷◌, find, ◌==◌,
  KeysDistinct, eq_iff, find_of_LacksKey, Bool-cases, inl, inr,
}
use group_management_ui_back.Types.{Group}
use group_management_ui_back.AccessRules.{State, map_groups, load_groups}

-- The name of the group with the identifier.
abbrev pub group_name : String → List Group → Option String
group_name id groups = Option.map (λ g. g.name) (find (λ g. g.id == id) groups)

map_groups-lookup :
    (id : String) (m : Dict String) (gs : List Group)
    → KeysDistinct (λ g. g.id) gs
    → lookup id (map_groups m gs) ≡ or_else (group_name id gs) (lookup id m)
unfolding map_groups lookup
map_groups-lookup id m [] d = refl
map_groups-lookup id m (g ∷ gs) (fresh, d) = elim (Bool-cases (g.id == id)) [
  | inl e ↦
      map_groups-lookup id ((g.id, g.name) ∷ m) gs d
      ∙ rw e (rw (find_of_LacksKey (λ x. x.id) id gs (rw (← (eq_iff g.id id).0 e) fresh)) refl)
  | inr e ↦ map_groups-lookup id ((g.id, g.name) ∷ m) gs d ∙ rw e refl
]

-- Once the groups are loaded, each identifier is shown by the name of its group, where the groups
-- have different identifiers; without an answer the names stay as they were.
pub load_groups_lem :
    (groups : List Group) (s : State) (id : String)
    → KeysDistinct (λ g. g.id) groups
    → (lookup id (load_groups (some groups) s).group_map ≡ group_name id groups)
      × (load_groups none s ≡ s)
unfolding load_groups lookup
load_groups_lem groups s id d =
    (map_groups-lookup id [] groups d ∙ or_else_none (group_name id groups), refl)
  where
    or_else_none : (o : Option String) → or_else o none ≡ o
    or_else_none none = refl
    or_else_none (some a) = refl
