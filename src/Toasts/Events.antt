-- ===== src/Toasts/Events.antt =====
-- The store over any sequence of calls and timers.
use group_management_ui_back.Prelude.{
  ℕ, String, ◌≡◌, ◌≢◌, ◌≤◌, refl, Bool, true, false, Option, some, List, [], ◌∷◌, ◌==◌, not, filter,
  length, arith, All, All-map, All-All, All-imp, KeysDistinct-filter, eq_iff, All-filter, includes,
}
use group_management_ui_back.Toasts.{
  ToasterToast, Changes, Action, add_toast, update_toast, dismiss_toast, remove_toast, Listener,
  Store, toast_limit, show, reduce, reduce_timeouts, dispatch, gen_id, toast, dismiss, update,
  on_open_change, fire, subscribe, unsubscribe,
}
use group_management_ui_back.Toasts.Timers.{
  IsPending, Unique, queue_dismissed-Unique, IsPending-filter,
}
use group_management_ui_back.Toasts.Reducing.{
  IsTimed, AllTimed, OpensOnly, length-reduce, AllTimed-reduce,
}

abbrev pub initial : {N : Type 0} → Store N
initial = record { count = 0; timeouts = []; toasts = []; listeners = [] }

module _ {N : Type 0} where
  -- What holds between two events: at most one toast, one timer for an identifier, and a timer
  -- for every closed toast.
  pub record IsSound (s : Store N) : Type 0 where
    pub limited : length s.toasts ≤ toast_limit
    pub unique : Unique s.timeouts
    pub timed : AllTimed s.timeouts s.toasts

  -- A call from the program, the firing of a timer that is set, or a component that comes or goes.
  pub data Step (s : Store N) : Store N → Type 0 where
    toasts : (title description action : Option N) → Step s (toast title description action s).1
    updates :
        (id : String) (changes : Changes N)
        → changes.is_open ≢ some (some false)
        → Step s (update id changes s)
    dismisses : (id : Option String) → Step s (dismiss id s)
    opens_or_closes : (id : String) (open' : Bool) → Step s (on_open_change id open' s)
    fires : (id : String) → IsPending id s.timeouts → Step s (fire id s)
    subscribes : (l : Listener N) → Step s (subscribe l s)
    unsubscribes : (key : ℕ) → Step s (unsubscribe key s)

  pub data Reach (s : Store N) : Store N → Type 0 where
    here : Reach s s
    next : {t u : Store N} → Reach s t → Step t u → Reach s u

  Unique-reduce :
      (ts : List (ToasterToast N)) (action : Action N) (timeouts : List String)
      → Unique timeouts
      → Unique (reduce_timeouts ts action timeouts)
  unfolding reduce_timeouts
  Unique-reduce ts (dismiss_toast id) timeouts u = queue_dismissed-Unique id ts timeouts u
  Unique-reduce ts _ timeouts u = u

  dispatch-IsSound :
      (action : Action N) (s : Store N) → OpensOnly action → IsSound s → IsSound (dispatch action s)
  unfolding dispatch
  dispatch-IsSound action s opens h = record {
    limited = length-reduce s.toasts action h.limited;
    unique = Unique-reduce s.toasts action s.timeouts h.unique;
    timed = AllTimed-reduce s.toasts action s.timeouts opens h.timed;
  }

  -- The timer of `id` fires: its toast goes, so the other timers are all that is needed.
  fire-AllTimed :
      (id : String) (timeouts : List String) (ts : List (ToasterToast N))
      → AllTimed timeouts ts
      → AllTimed (filter (λ x. not (x == id)) timeouts) (filter (λ t. not (t.id == id)) ts)
  fire-AllTimed id timeouts ts h =
      All-imp (λ t. IsTimed timeouts t × (not (t.id == id) ≡ true))
        (IsTimed (filter (λ x. not (x == id)) timeouts))
        (λ t p o.
          IsPending-filter id t.id timeouts (λ e. ground (arith, p.1, eq_iff t.id id)) (p.0 o))
        (filter (λ t. not (t.id == id)) ts)
        (All-filter (IsTimed timeouts) (λ t. not (t.id == id)) ts h)

  fire-IsSound : (id : String) (s : Store N) → IsSound s → IsSound (fire id s)
  unfolding fire dispatch
  fire-IsSound id s h = record {
    limited = length-reduce s.toasts (remove_toast (some id)) h.limited;
    unique =
        unfold reduce_timeouts in
        KeysDistinct-filter (λ x. x) (λ x. not (x == id)) s.timeouts h.unique;
    timed = unfold reduce reduce_timeouts in fire-AllTimed id s.timeouts s.toasts h.timed;
  }

  -- Every event keeps the store sound.
  pub Step-IsSound : {s t : Store N} → Step s t → IsSound s → IsSound t
  unfolding toast update dismiss on_open_change subscribe unsubscribe
  Step-IsSound {s} (toasts title description action) h =
      dispatch-IsSound
        (add_toast (record {
          id = (gen_id s.count).1;
          title = title;
          description = description;
          action = action;
          is_open = some true;
        }))
        (record s { count = (gen_id s.count).0 }) (λ e. cc)
        (record { limited = h.limited; unique = h.unique; timed = h.timed })
  Step-IsSound {s} (updates id changes keeps) h =
      dispatch-IsSound (update_toast (record changes { id = some id })) s keeps h
  Step-IsSound {s} (dismisses id) h = dispatch-IsSound (dismiss_toast id) s tt h
  Step-IsSound {s} (opens_or_closes id true) h = h
  Step-IsSound {s} (opens_or_closes id false) h = dispatch-IsSound (dismiss_toast (some id)) s tt h
  Step-IsSound {s} (fires id _) h = fire-IsSound id s h
  Step-IsSound (subscribes l) h = record { limited = h.limited; unique = h.unique; timed = h.timed }
  Step-IsSound (unsubscribes key) h = record {
    limited = h.limited;
    unique = h.unique;
    timed = h.timed;
  }

  initial-IsSound : IsSound initial
  initial-IsSound = record { limited = omega arith; unique = tt; timed = tt }

  -- Whatever happens, in any order, from the start: there is at most one toast, no identifier has
  -- two timers, and every closed toast has its timer set (where no update closes a toast).
  pub Reach-IsSound : {s : Store N} → Reach initial s → IsSound s
  Reach-IsSound here = initial-IsSound
  Reach-IsSound (next r step) = Step-IsSound step (Reach-IsSound r)

  -- The timers of a list of identifiers fire, one after the other.
  unfoldable pub fire_each : List String → Store N → Store N
  fire_each [] s = s
  fire_each (id ∷ ids) s = fire_each ids (fire id s)

  toasts-fire_each :
      (P : ToasterToast N → Type 0) (ids : List String) (s : Store N)
      → All P s.toasts
      → All (λ t. P t × (includes t.id ids ≡ false)) (fire_each ids s).toasts
  unfolding fire_each fire dispatch reduce
  toasts-fire_each P [] s h = All-imp P (λ t. P t × (false ≡ false)) (λ t p. (p, refl)) s.toasts h
  toasts-fire_each P (id ∷ ids) s h =
      All-imp (λ t. (P t × (not (t.id == id) ≡ true)) × (includes t.id ids ≡ false))
        (λ t. P t × (includes t.id (id ∷ ids) ≡ false))
        (λ t p. (p.0.0, ground (arith, p.0.1, p.1, eq_iff t.id id, eq_iff id t.id)))
        (fire_each ids (fire id s)).toasts
        (toasts-fire_each (λ t. P t × (not (t.id == id) ≡ true)) ids (fire id s)
          (All-filter P (λ t. not (t.id == id)) s.toasts h))

  -- In every store that is reached from the start without an update that closes a toast, once the
  -- timers that are set have fired, no closed toast is left.
  pub closed_toasts_go :
      {s : Store N}
      → Reach initial s
      → All (λ t. t.is_open ≢ some false) (fire_each s.timeouts s).toasts
  closed_toasts_go {s} r =
      All-imp (λ t. IsTimed s.timeouts t × (includes t.id s.timeouts ≡ false))
        (λ t. t.is_open ≢ some false) (λ t p e. cc (p.0 e, p.1)) (fire_each s.timeouts s).toasts
        (toasts-fire_each (IsTimed s.timeouts) s.timeouts s (Reach-IsSound r).timed)

  -- Every listener is handed the toasts that the store then holds.
  pub listeners-dispatch :
      (action : Action N) (s : Store N)
      → All (λ l. l.shown ≡ (dispatch action s).toasts) (dispatch action s).listeners
  unfolding dispatch
  listeners-dispatch action s =
      All-map (λ l. Unit {0}) (λ l. l.shown ≡ reduce s.toasts action)
        (show (reduce s.toasts action)) (λ l _. refl) s.listeners
        (All-All (λ l. Unit {0}) (λ l. tt) s.listeners)

  -- A new toast replaces all others: it alone is there, open, under the identifier returned.
  pub toast_shown :
      (title description action : Option N) (s : Store N)
      → (toast title description action s).1.toasts
        ≡ (record {
          id = (toast title description action s).0;
          title = title;
          description = description;
          action = action;
          is_open = some true;
        })
          ∷ []
  unfolding toast dispatch reduce
  toast_shown title description action s = refl
