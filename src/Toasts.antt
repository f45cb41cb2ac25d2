-- ===== src/Toasts.antt =====
-- frontend/hooks/use-toast.ts (frontend/components/ui/use-toast.ts is a copy): the toast store.
-- The module's variables are one record; `N` is the type of React nodes. A timer is the
-- identifier under which `toastTimeouts` holds it, and an event of its own when it fires.
pub mod Reducing
pub mod Timers
pub mod Events
pub mod Identifiers
mod Tests
use group_management_ui_back.Prelude.{
  ℕ, ◌+◌, ◌%◌, String, Bool, true, false, Option, none, some, List, [], ◌∷◌, ◌++◌, map, ◌==◌, not,
  ◌||◌, includes, filter, take, if◌then◌else◌, is_blank, to_text, eqb,
}

abbrev pub toast_limit : ℕ
toast_limit = 1

-- `Number.MAX_SAFE_INTEGER`
abbrev pub max_safe_integer : ℕ
max_safe_integer = 9007199254740991

pub record ToasterToast (N : Type 0) : Type 0 where
  pub id : String
  pub title : Option N
  pub description : Option N
  pub action : Option N
  pub is_open : Option Bool

-- `Partial<ToasterToast>`: a member that is given may be given as `undefined`.
pub record Changes (N : Type 0) : Type 0 where
  pub id : Option String
  pub title : Option (Option N)
  pub description : Option (Option N)
  pub action : Option (Option N)
  pub is_open : Option (Option Bool)

pub data Action (N : Type 0) : Type 0 where
  add_toast : ToasterToast N → Action N
  update_toast : Changes N → Action N
  dismiss_toast remove_toast : Option String → Action N

-- A mounted `useToast`: its `setState` and the toasts that it was last set to.
pub record Listener (N : Type 0) : Type 0 where
  pub key : ℕ
  pub shown : List (ToasterToast N)

pub record Store (N : Type 0) : Type 0 where
  pub count : ℕ
  pub timeouts : List String
  pub toasts : List (ToasterToast N)
  pub listeners : List (Listener N)

abbrev pub given {ℓ} : {A : Type ℓ} → Option A → A → A
given none old = old
given (some new) old = new

-- `id === toastId`, where `toastId` may be undefined
abbrev pub is_id : Option String → String → Bool
is_id none id = false
is_id (some other) id = id == other

-- `addToRemoveQueue`: no second timer for one identifier
unfoldable pub add_to_remove_queue : String → List String → List String
add_to_remove_queue id timeouts = if includes id timeouts then timeouts else timeouts ++ id ∷ []

-- `genId`, with the counter after it
unfoldable pub gen_id : ℕ → ℕ × String
gen_id count = let next = (count + 1) % max_safe_integer in (next, to_text next)

-- A listener is called with the new state.
abbrev pub show : {N : Type 0} → List (ToasterToast N) → Listener N → Listener N
show toasts l = record l { shown = toasts }

module _ {N : Type 0} where
  -- `{ ...t, ...changes }`
  unfoldable pub merge : Changes N → ToasterToast N → ToasterToast N
  merge changes t = record {
    id = given changes.id t.id;
    title = given changes.title t.title;
    description = given changes.description t.description;
    action = given changes.action t.action;
    is_open = given changes.is_open t.is_open;
  }

  abbrev pub close : ToasterToast N → ToasterToast N
  close t = record t { is_open = some false }

  unfoldable pub queue_all : List (ToasterToast N) → List String → List String
  unfolding add_to_remove_queue
  queue_all [] timeouts = timeouts
  queue_all (t ∷ ts) timeouts = queue_all ts (add_to_remove_queue t.id timeouts)

  -- The side effect of `reducer`, on the timers.
  unfoldable pub queue_dismissed : Option String → List (ToasterToast N) → List String → List String
  unfolding add_to_remove_queue queue_all
  queue_dismissed none toasts timeouts = queue_all toasts timeouts
  queue_dismissed (some id) toasts timeouts =
      if is_blank id then queue_all toasts timeouts else add_to_remove_queue id timeouts

  -- `t.id === toastId || toastId === undefined`
  abbrev pub dismisses : Option String → ToasterToast N → Bool
  dismisses none t = true
  dismisses (some id) t = t.id == id

  -- The toasts that `reducer` returns.
  unfoldable pub reduce : List (ToasterToast N) → Action N → List (ToasterToast N)
  unfolding merge
  reduce toasts (add_toast t) = take toast_limit (t ∷ toasts)
  reduce toasts (update_toast changes) =
      map (λ t. if is_id changes.id t.id then merge changes t else t) toasts
  reduce toasts (dismiss_toast id) = map (λ t. if dismisses id t then close t else t) toasts
  reduce toasts (remove_toast none) = []
  reduce toasts (remove_toast (some id)) = filter (λ t. not (t.id == id)) toasts

  -- The timers after `reducer`.
  unfoldable pub reduce_timeouts : List (ToasterToast N) → Action N → List String → List String
  unfolding queue_dismissed
  reduce_timeouts toasts (dismiss_toast id) timeouts = queue_dismissed id toasts timeouts
  reduce_timeouts toasts _ timeouts = timeouts

  unfoldable pub dispatch : Action N → Store N → Store N
  unfolding reduce reduce_timeouts
  dispatch action s =
      let toasts = reduce s.toasts action in
      record s {
        timeouts = reduce_timeouts s.toasts action s.timeouts;
        toasts = toasts;
        listeners = map (show toasts) s.listeners;
      }

  -- `toast({ title, description, action })`, with the identifier that it returns
  unfoldable pub toast : Option N → Option N → Option N → Store N → String × Store N
  unfolding gen_id dispatch
  toast title description action s =
      let (count, id) = gen_id s.count in
      let t : ToasterToast N = record {
        id = id;
        title = title;
        description = description;
        action = action;
        is_open = some true;
      } in
      (id, dispatch (add_toast t) (record s { count = count }))

  -- `dismiss` and `update` of the value that `toast` returns, and `onOpenChange`
  unfoldable pub dismiss : Option String → Store N → Store N
  unfolding dispatch
  dismiss id = dispatch (dismiss_toast id)

  unfoldable pub update : String → Changes N → Store N → Store N
  unfolding dispatch
  update id changes = dispatch (update_toast (record changes { id = some id }))

  unfoldable pub on_open_change : String → Bool → Store N → Store N
  unfolding dismiss
  on_open_change id open' s = if open' then s else dismiss (some id) s

  -- The timer of a toast fires.
  unfoldable pub fire : String → Store N → Store N
  unfolding dispatch
  fire id s =
      dispatch (remove_toast (some id))
        (record s { timeouts = filter (λ other. not (other == id)) s.timeouts })

  -- The effect of `useToast` and its clean-up: `indexOf` and `splice` take the first occurrence.
  unfoldable pub subscribe : Listener N → Store N → Store N
  subscribe l s = record s { listeners = s.listeners ++ l ∷ [] }

  unfoldable pub drop_listener : ℕ → List (Listener N) → List (Listener N)
  drop_listener key [] = []
  drop_listener key (l ∷ ls) = if eqb l.key key then ls else l ∷ drop_listener key ls

  unfoldable pub unsubscribe : ℕ → Store N → Store N
  unfolding drop_listener
  unsubscribe key s = record s { listeners = drop_listener key s.listeners }
