-- ===== src/Toasts/Identifiers.antt =====
-- `genId` of frontend/hooks/use-toast.ts: the identifiers of the toasts that are created one after the
-- other, whatever happens between them.
use group_management_ui_back.Prelude.{
  ℕ, ◌+◌, ◌%◌, ◌<◌, true, false, ◌≡◌, ◌↔◌, refl, ap, Option, arith, to_text, to_text_injective,
}
use group_management_ui_back.Toasts.{
  Store, max_safe_integer, gen_id, toast, dispatch, update, dismiss, on_open_change, fire,
  subscribe, unsubscribe,
}
use group_management_ui_back.Toasts.Events.{
  initial, Step, toasts, updates, dismisses, opens_or_closes, fires, subscribes, unsubscribes,
  Reach, here, next,
}

module _ {N : Type 0} where
  -- How many toasts an event creates, and how many some events do
  abbrev pub created : {s t : Store N} → Step s t → ℕ
  created (toasts title description action) = 1
  created _ = 0

  abbrev pub created_in : {s t : Store N} → Reach s t → ℕ
  created_in here = 0
  created_in (next r step) = created_in r + created step

  count-Step :
      {s t : Store N} (step : Step s t)
      → s.count < max_safe_integer
      → t.count ≡ (s.count + created step) % max_safe_integer
  unfolding toast dispatch gen_id update dismiss on_open_change fire subscribe unsubscribe
  count-Step (toasts title description action) h = refl
  count-Step (updates id changes keeps) h = omega arith
  count-Step (dismisses id) h = omega arith
  count-Step (opens_or_closes id true) h = omega arith
  count-Step (opens_or_closes id false) h = omega arith
  count-Step (fires id pending) h = omega arith
  count-Step (subscribes l) h = omega arith
  count-Step (unsubscribes key) h = omega arith

  count-Reach :
      {s t : Store N} (r : Reach s t)
      → s.count < max_safe_integer
      → t.count ≡ (s.count + created_in r) % max_safe_integer
  count-Reach here h = omega arith
  count-Reach (next r step) h =
      let before = count-Reach r h in omega (arith, before, count-Step step (omega (arith, before)))

  count_bound : {s : Store N} → Reach initial s → s.count < max_safe_integer
  count_bound r = omega (arith, count-Reach r (omega arith))

  -- From any store that is reached from the start, a toast is given the identifier of an earlier one
  -- just where the number of toasts from the one to the other, whatever else happens between them but
  -- an update that closes a toast, is a multiple of 2 ^ 53 - 1.
  pub same_id_iff :
      {s t : Store N} (title description action title' description' action' : Option N)
      → Reach initial s
      → (r : Reach (toast title description action s).1 t)
      → ((toast title' description' action' t).0 ≡ (toast title description action s).0)
        ↔ ((created_in r + 1) % max_safe_integer ≡ 0)
  unfolding toast gen_id
  same_id_iff {s} {t} title description action title' description' action' before r =
      let from = count_bound before in
      let along = count-Reach r (omega arith) in
      (
        λ e. omega (
          arith,
          from,
          along,
          to_text_injective ((t.count + 1) % max_safe_integer) ((s.count + 1) % max_safe_integer) e,
        ),
        λ e. ap to_text (omega (arith, from, along)),
      )
