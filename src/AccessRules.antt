-- ===== src/AccessRules.antt =====
-- The access rules of a resource: frontend/components/dashboard/resources/access-rules-table.tsx,
-- and add-access-rule-modal.tsx beside it in the child `Adding`.
-- A handler is split at its `await`, and goes on with the rules that its closure captured.
pub mod Adding
pub mod Deleting
pub mod Showing
mod Tests
use Prim.Native.String.{◌++◌}
use group_management_ui_back.Prelude.{
  Dict, lookup, ℕ, String, Bool, true, false, Option, none, some, List, [], ◌∷◌, map, filter, not,
  ◌==◌, if◌then◌else◌, is_blank,
}
use group_management_ui_back.Types.{Group, AccessRule}

pub data Notice : Type 0 where
  rule_deleted deletion_failed : Notice

-- The table's state; the rules are the parent's, which the table replaces.
pub record State : Type 0 where
  pub rules : List AccessRule
  pub deleting : Option String
  pub confirm_delete : Option String
  pub group_map : Dict String
  pub identity_counts : Dict ℕ
  pub notices : List Notice

-- `groups.forEach((g) => { map[g.id] = g.name })`
unfoldable pub map_groups : Dict String → List Group → Dict String
map_groups m [] = m
map_groups m (g ∷ gs) = map_groups ((g.id, g.name) ∷ m) gs

-- The effect on mount, with what `getGroups` comes to.
unfoldable pub load_groups : Option (List Group) → State → State
unfolding map_groups
load_groups none s = s
load_groups (some groups) s = record s { group_map = map_groups [] groups }

unfoldable pub map_counts : Dict ℕ → List (String × ℕ) → Dict ℕ
map_counts m [] = m
map_counts m (entry ∷ entries) = map_counts (entry ∷ m) entries

-- `Promise.all` over the rules: the entries in the order of the rules, or a failure if one fails.
unfoldable pub all_counts : (String → Option ℕ) → List AccessRule → Option (List (String × ℕ))
all_counts count_of [] = some []
all_counts count_of (r ∷ rs) = elim (count_of r.id) [
  | none ↦ none
  | some n ↦ elim (all_counts count_of rs) [
    | none ↦ none
    | some entries ↦ some ((r.id, n) ∷ entries)
  ]
]

-- The effect on the rules, with the answers of `getAccessRuleIdentityCount`.
unfoldable pub load_counts : (String → Option ℕ) → State → State
unfolding all_counts map_counts
load_counts count_of s = elim (all_counts count_of s.rules) [
  | none ↦ s
  | some entries ↦ record s { identity_counts = map_counts [] entries }
]

-- `xs.join(', ')`
unfoldable pub join : List String → String
join [] = ""
join (x ∷ []) = x
join (x ∷ y ∷ ys) = x ++ (", " ++ join (y ∷ ys))

abbrev pub name_or : String → Option String → String
name_or id none = id
name_or id (some name) = if is_blank name then id else name

-- `formatGroups`; `undefined` and `null` are `none`
unfoldable pub format_groups : Dict String → Option (List String) → String
unfolding lookup join
format_groups groups none = "No groups"
format_groups groups (some []) = "No groups"
format_groups groups (some (id ∷ ids)) = join (map (λ i. name_or i (lookup i groups)) (id ∷ ids))

pub record Flight : Type 0 where
  pub rule_id : String
  pub captured : List AccessRule

-- `handleDeleteRule`
unfoldable pub start_delete : String → State → Flight × State
start_delete id s = (record { rule_id = id; captured = s.rules }, record s { deleting = some id })

unfoldable pub finish_delete : Bool → Flight → State → State
finish_delete true f s = record s {
  rules = filter (λ r. not (r.id == f.rule_id)) f.captured;
  confirm_delete = none;
  deleting = none;
  notices = rule_deleted ∷ s.notices;
}
finish_delete false f s = record s { deleting = none; notices = deletion_failed ∷ s.notices }

-- The buttons of a row and of the dialog.
unfoldable pub ask_delete : String → State → State
ask_delete id s = record s { confirm_delete = some id }

unfoldable pub change_dialog : Bool → State → State
change_dialog true s = s
change_dialog false s = record s { confirm_delete = none }

-- `confirmDelete && handleDeleteRule(confirmDelete)`
unfoldable pub handle_confirm : State → Option Flight × State
unfolding start_delete
handle_confirm s = elim s.confirm_delete [
  | none ↦ (none, s)
  | some id ↦ if is_blank id then (none, s) else let (f, s') = start_delete id s in (some f, s')
]

-- Of two absent texts `deleting === confirmDelete` holds.
abbrev pub same_text : Option String → Option String → Bool
same_text none none = true
same_text (some s) (some t) = s == t
same_text _ _ = false

-- A click on the action of the dialog, which is disabled while that rule is being deleted: the
-- library's button runs `onClick` and then closes the dialog, before the request ends.
unfoldable pub confirm : State → Option Flight × State
unfolding handle_confirm change_dialog
confirm s =
    let (f, s') = handle_confirm s in
    if same_text s.deleting s.confirm_delete then (none, s) else (f, change_dialog false s')

-- A row of the table.
pub record Row : Type 0 where
  pub name : String
  pub groups : String
  pub status : String
  pub identities : ℕ
  pub created : String
  pub delete_disabled : Bool

abbrev pub count_or_zero : Option ℕ → ℕ
count_or_zero none = 0
count_or_zero (some n) = n

abbrev pub is_text : Option String → String → Bool
is_text none s = false
is_text (some t) s = t == s

unfoldable pub row : State → AccessRule → Row
unfolding format_groups
row s r = record {
  name = r.name;
  groups = format_groups s.group_map (some r.allowed_groups);
  status = if r.enabled then "Enabled" else "Disabled";
  identities = count_or_zero (lookup r.id s.identity_counts);
  created = r.created_at;
  delete_disabled = is_text s.deleting r.id;
}

unfoldable pub rows : State → List Row
unfolding row
rows s = map (row s) s.rules

pub record Dialog : Type 0 where
  pub is_open : Bool
  pub action_disabled : Bool
  pub action_label : String

abbrev pub is_shown : Option String → Bool
is_shown none = false
is_shown (some id) = not (is_blank id)

unfoldable pub dialog : State → Dialog
dialog s = record {
  is_open = is_shown s.confirm_delete;
  action_disabled = same_text s.deleting s.confirm_delete;
  action_label = if same_text s.deleting s.confirm_delete then "Deleting..." else "Delete";
}
