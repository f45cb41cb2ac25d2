-- ===== src/AccessRules/Deleting.antt =====
-- Deleting access rules, one at a time and overlapping.
use group_management_ui_back.Prelude.{
  String, ◌≡◌, ◌≢◌, refl, sym, ap, Bool, true, false, Option, none, some, HasKey, LacksKey,
  LacksKey-filter, HasKey-filter_ne, find, find-filter, ◌==◌, if◌then◌else◌, is_blank,
}
use group_management_ui_back.Types.{AccessRule}
use group_management_ui_back.AccessRules.{
  State, Flight, start_delete, finish_delete, ask_delete, change_dialog, handle_confirm, confirm,
  dialog, same_text,
}

abbrev pub HasRule : String → State → Type 0
HasRule id s = HasKey (λ r. r.id) id s.rules

abbrev pub rule : String → State → Option AccessRule
rule id s = find (λ r. r.id == id) s.rules

abbrev pub delete : String → Bool → State → State
delete id ok s = finish_delete ok (start_delete id s).0 (start_delete id s).1

-- The end of the request of a click, if it made one.
abbrev settle : Bool → Option Flight × State → State
settle ok (none, s) = s
settle ok (some f, s) = finish_delete ok f s

-- A rule is chosen for deletion and the dialog confirmed; then the request ends.
abbrev pub clicked : String → State → State
clicked id s = (confirm (ask_delete id s)).1

abbrev pub deleted : String → Bool → State → State
deleted id ok s = settle ok (confirm (ask_delete id s))

finish_delete-closed :
    (ok : Bool) (f : Flight) (s : State)
    → s.confirm_delete ≡ none
    → ((dialog (finish_delete ok f s)).is_open ≡ false) × ((finish_delete ok f s).deleting ≡ none)
unfolding finish_delete dialog
finish_delete-closed true f s h = (refl, refl)
finish_delete-closed false f s h = (rw h refl, refl)

confirm-started :
    (id : String) (s : State)
    → is_blank id ≡ false
    → same_text s.deleting (some id) ≡ false
    → confirm (ask_delete id s) ≡ (
      some (record { rule_id = id; captured = s.rules }),
      record s { deleting = some id; confirm_delete = none },
    )
unfolding ask_delete confirm change_dialog handle_confirm start_delete
confirm-started id s h idle = rw (idle, h) refl

-- A rule that is not being deleted already, with an identifier that is not empty, is chosen, its
-- deletion is confirmed in the dialog, and the request ends with nothing in between. The click closes
-- the dialog and marks the rule as being deleted. On success the rule is then gone and every other
-- rule is found as before; on failure the rules stay; either way the dialog is closed at the end and no
-- deletion is left under way.
pub delete_lem :
    (id : String) (s : State)
    → is_blank id ≡ false
    → same_text s.deleting (some id) ≡ false
    → ((dialog (clicked id s)).is_open ≡ false)
      × ((clicked id s).deleting ≡ some id)
      × ((j : String) → rule j (deleted id true s) ≡ (if id == j then none else rule j s))
      × ((deleted id false s).rules ≡ s.rules)
      × ((ok : Bool)
          → ((dialog (deleted id ok s)).is_open ≡ false) × ((deleted id ok s).deleting ≡ none))
unfolding finish_delete dialog
delete_lem id s h idle =
    let start = confirm-started id s h idle in
    (
      ap (λ p. (dialog p.1).is_open) start,
      ap (λ p. p.1.deleting) start,
      (λ j. rw start (find-filter (λ r. r.id) id j s.rules)),
      ap (λ p. (settle false p).rules) start,
      (λ ok. rw start (
          finish_delete-closed ok (record { rule_id = id; captured = s.rules })
            (record s { deleting = some id; confirm_delete = none }) refl)),
    )

-- A second deletion that starts before the first has ended, and ends after it.
abbrev pub overlap : String → String → State → State
overlap first second s =
    let (f, s1) = start_delete first s in
    let (g, s2) = start_delete second s1 in finish_delete true g (finish_delete true f s2)

-- Of two rules whose deletions overlap, both successful, the first is shown again at the end.
pub overlap_resurrects_rule :
    (a b : String) (s : State)
    → a ≢ b
    → HasRule a s
    → HasRule a (overlap a b s) × LacksKey (λ r. r.id) b (overlap a b s).rules
unfolding start_delete finish_delete
overlap_resurrects_rule a b s ne h = (
  HasKey-filter_ne (λ r. r.id) b a s.rules (λ e. ne (sym e)) h,
  LacksKey-filter (λ r. r.id) b s.rules,
)

confirm-dismissed :
    (id : String) (deleting : Option String) (s : State)
    → s.deleting ≡ deleting
    → confirm (change_dialog false (ask_delete id s)) ≡ (none, record s { confirm_delete = none })
unfolding ask_delete confirm change_dialog handle_confirm
confirm-dismissed id none s h = rw h refl
confirm-dismissed id (some t) s h = rw h refl

-- Asking shows the dialog for a rule with an identifier, dismissing it deletes nothing, and only
-- confirming it starts a deletion, of the rule that was asked about, if it is not being deleted.
pub ask_confirm :
    (id : String) (s : State)
    → is_blank id ≡ false
    → same_text s.deleting (some id) ≡ false
    → ((dialog (ask_delete id s)).is_open ≡ true)
      × (confirm (change_dialog false (ask_delete id s))
          ≡ (none, record s { confirm_delete = none }))
      × ((f : Flight) × ((confirm (ask_delete id s)).0 ≡ some f)
          × (f.rule_id ≡ id)
          × (f.captured ≡ s.rules))
unfolding dialog ask_delete confirm change_dialog handle_confirm
ask_confirm id s h idle = (
  rw h refl,
  confirm-dismissed id s.deleting s refl,
  (record { rule_id = id; captured = s.rules }, rw (idle, h) refl, refl, refl),
)
