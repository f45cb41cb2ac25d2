-- ===== src/Toasts/Tests.antt =====
-- Runs of the toast store, and its theorems at concrete inputs.
use group_management_ui_back.Prelude.{ℕ, ◌≡◌, ◌≢◌, refl, none, some, [], ◌∷◌, false, All, to_text}
use group_management_ui_back.Prelude.{◌↔◌, ◌+◌, ◌%◌}
use group_management_ui_back.Toasts.Events.{opens_or_closes}
use group_management_ui_back.Toasts.Identifiers.{created_in, same_id_iff}
use group_management_ui_back.Toasts.{on_open_change, max_safe_integer, Store, toast, dismiss, fire}
use group_management_ui_back.Toasts.Events.{
  initial, IsSound, toasts, dismisses, Reach, here, next, fire_each, Reach-IsSound,
  closed_toasts_go,
}

-- A toast is shown and closed by its button; a second one replaces it; all are dismissed.
abbrev busy : Store ℕ
busy =
    dismiss none
      (toast (some 5) none none (dismiss (some "1") (toast (some 4) none none initial).1)).1

busy_test : busy ≡ record {
  count = 2;
  timeouts = "1" ∷ "2" ∷ [];
  toasts =
      (record { id = "2"; title = some 5; description = none; action = none; is_open = some false })
      ∷ [];
  listeners = [];
}
unfolding toast dismiss to_text
busy_test = refl

busy-Reach : Reach initial busy
busy-Reach =
    next
      (next (next (next here (toasts (some 4) none none)) (dismisses (some "1")))
        (toasts (some 5) none none))
      (dismisses none)

gone_test : (fire "2" (fire "1" busy)).toasts ≡ []
unfolding toast dismiss fire to_text
gone_test = refl

Reach-IsSound_example : IsSound busy
Reach-IsSound_example = Reach-IsSound busy-Reach

closed_toasts_go_example : All (λ t. t.is_open ≢ some false) (fire_each busy.timeouts busy).toasts
closed_toasts_go_example = closed_toasts_go busy-Reach

-- A toast of a store, another one after it, and a dismissal and a close between them.
abbrev first_toast : Store ℕ
first_toast = (toast (some 4) none none initial).1

abbrev between : Reach first_toast (on_open_change "1" false (dismiss none first_toast))
between = next (next here (dismisses none)) (opens_or_closes "1" false)

same_id_iff_example :
    ((toast {N = ℕ} (some 5) none none (on_open_change "1" false (dismiss none first_toast))).0
      ≡ (toast {N = ℕ} (some 4) none none initial).0)
    ↔ ((created_in between + 1) % max_safe_integer ≡ 0)
same_id_iff_example = same_id_iff {N = ℕ} (some 4) none none (some 5) none none here between
