-- ===== src/Pages/Rules.antt =====
-- frontend/src/pages/resources/ResourceDetailPage.tsx with the table of its access rules
-- (frontend/components/dashboard/resources/access-rules-table.tsx): the rules of the page, which the
-- table changes by deletions and the modal by creations.
use group_management_ui_back.Prelude.{
  String, ◌≡◌, refl, arith, true, none, some, List, [], ◌∷◌, ◌++◌, find, if◌then◌else◌, ◌==◌,
  or_else, HasKey, LacksKey, LacksKey-filter, inl, inr,
}
use group_management_ui_back.Types.{AccessRule}
use group_management_ui_back.AccessRules.{State, start_delete, finish_delete}
use group_management_ui_back.AccessRules.Deleting.{delete}
use group_management_ui_back.Pages.{ResourcePage, rule_created}

-- The rules that the page shows.
abbrev pub rules_of : ResourcePage → List AccessRule
rules_of s = s.contents.1

-- A deletion by the table that succeeds, with nothing in between: the table has the rules of the
-- page, and hands it those that are left by `onRulesChange`.
unfoldable pub delete_on_page : String → State → ResourcePage → ResourcePage
delete_on_page id table s = record s {
  contents = (s.contents.0, (delete id true (record table { rules = rules_of s })).rules);
}

find-snoc :
    (j : String) (new : AccessRule) (rs : List AccessRule)
    → find (λ r. r.id == j) (rs ++ (new ∷ []))
      ≡ or_else (find (λ r. r.id == j) rs) (if new.id == j then some new else none)
find-snoc j new [] = refl
find-snoc j new (r ∷ rs) = ground (arith, find-snoc j new rs)

HasKey-append :
    (k : String) (rs ss : List AccessRule)
    → HasKey (λ r. r.id) k rs
    → HasKey (λ r. r.id) k (rs ++ ss)
HasKey-append k [] ss h = absurd h
HasKey-append k (r ∷ rs) ss (inl e) = inl e
HasKey-append k (r ∷ rs) ss (inr h) = inr (HasKey-append k rs ss h)

-- A created rule is found on the page beside all that were found before, if nothing happened since
-- the page was rendered; but if a rule was deleted since, it is shown again.
pub rule_created_lem :
    (new : AccessRule) (table : State) (s : ResourcePage) (id : String)
    → HasKey (λ r. r.id) id (rules_of s)
    → ((j : String)
        → find (λ r. r.id == j) (rules_of (rule_created (rules_of s) new s))
          ≡ or_else (find (λ r. r.id == j) (rules_of s)) (if new.id == j then some new else none))
      × LacksKey (λ r. r.id) id (rules_of (delete_on_page id table s))
      × HasKey (λ r. r.id) id (rules_of (rule_created (rules_of s) new (delete_on_page id table s)))
unfolding rule_created delete_on_page start_delete finish_delete
rule_created_lem new table s id h = (
  (λ j. find-snoc j new (rules_of s)),
  LacksKey-filter (λ r. r.id) id (rules_of s),
  HasKey-append id (rules_of s) (new ∷ []) h,
)
