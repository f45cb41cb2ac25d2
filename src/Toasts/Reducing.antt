-- ===== src/Toasts/Reducing.antt =====
-- One action of the reducer: the bound on the toasts, and the timers of the closed ones.
use group_management_ui_back.Prelude.{
  String, ◌≡◌, ◌≢◌, ◌≤◌, sym, ap, refl, Bool, true, false, Option, none, some, List, ◌==◌, not,
  eq_iff, map, filter, length, if◌then◌else◌, Bool-cases, inl, inr, arith, is_blank, All,
  filter-sublength, length-map, All-imp, All-map, All-both, All-All, All-filter,
}
use group_management_ui_back.Toasts.{
  ToasterToast, Changes, Action, add_toast, update_toast, dismiss_toast, remove_toast, toast_limit,
  close, dismisses, is_id, merge, reduce, reduce_timeouts, queue_all, queue_dismissed,
  add_to_remove_queue, given,
}
use group_management_ui_back.Toasts.Timers.{
  IsPending, queue-IsPending, queue_all-IsPending, queue_dismissed_keeps,
}

given_id : (o : Option String) (id : String) → is_id o id ≡ true → given o id ≡ id
given_id none id h = refl
given_id (some other) id h = sym ((eq_iff id other).0 h)

given_open :
    (o : Option (Option Bool)) (old : Option Bool)
    → o ≢ some (some false)
    → given o old ≡ some false
    → old ≡ some false
given_open none old keeps e = e
given_open (some new) old keeps e = absurd (keeps (ap some e))

module _ {N : Type 0} where
  -- A toast that is closed waits for its timer.
  abbrev pub IsTimed : List String → ToasterToast N → Type 0
  IsTimed timeouts t = t.is_open ≡ some false → IsPending t.id timeouts

  abbrev pub AllTimed : List String → List (ToasterToast N) → Type 0
  AllTimed timeouts = All (IsTimed timeouts)

  -- The reducer never leaves more toasts than the limit, where there were no more before.
  pub length-reduce :
      (ts : List (ToasterToast N)) (action : Action N)
      → length ts ≤ toast_limit
      → length (reduce ts action) ≤ toast_limit
  unfolding reduce
  length-reduce ts (add_toast t) h = omega arith
  length-reduce ts (update_toast changes) h = rw length-map h
  length-reduce ts (dismiss_toast id) h = rw length-map h
  length-reduce ts (remove_toast none) h = omega arith
  length-reduce ts (remove_toast (some id)) h =
      omega (arith, filter-sublength (λ t. not (t.id == id)) ts)

  -- Every toast that a dismissal closes has its timer set by then.
  closed-IsPending :
      (id : Option String) (ts : List (ToasterToast N)) (timeouts : List String)
      → All (λ t. dismisses id t ≡ true → IsPending t.id (queue_dismissed id ts timeouts)) ts
  unfolding queue_dismissed
  closed-IsPending none ts timeouts =
      All-imp (λ t. IsPending t.id (queue_all ts timeouts))
        (λ t. dismisses none t ≡ true → IsPending t.id (queue_all ts timeouts)) (λ t p _. p) ts
        (queue_all-IsPending ts timeouts)
  closed-IsPending (some id) ts timeouts = elim (Bool-cases (is_blank id)) [
    | inl h ↦ rw h (
        All-imp (λ t. IsPending t.id (queue_all ts timeouts))
          (λ t. dismisses (some id) t ≡ true → IsPending t.id (queue_all ts timeouts)) (λ t p _. p)
          ts (queue_all-IsPending ts timeouts))
    | inr h ↦ rw h (
        All-All
          (λ t. dismisses (some id) t ≡ true → IsPending t.id (add_to_remove_queue id timeouts))
          (λ t e. rw ((eq_iff t.id id).0 e) (queue-IsPending id timeouts)) ts)
  ]

  AllTimed-dismiss :
      (id : Option String) (ts : List (ToasterToast N)) (timeouts : List String)
      → AllTimed timeouts ts
      → AllTimed
          (queue_dismissed id ts timeouts)
          (map (λ t. if dismisses id t then close t else t) ts)
  AllTimed-dismiss id ts timeouts h =
      let queue = queue_dismissed id ts timeouts in
      All-map (λ t. IsTimed timeouts t × (dismisses id t ≡ true → IsPending t.id queue))
        (IsTimed queue) (λ t. if dismisses id t then close t else t)
        (λ t p. elim (Bool-cases (dismisses id t)) [
          | inl e ↦ rw e (λ _. p.1 e)
          | inr e ↦ rw e (λ o. queue_dismissed_keeps id ts timeouts t.id (p.0 o))
        ])
        ts
        (All-both (IsTimed timeouts) (λ t. dismisses id t ≡ true → IsPending t.id queue) ts h
          (closed-IsPending id ts timeouts))

  merge-IsTimed :
      (changes : Changes N) (t : ToasterToast N) (timeouts : List String)
      → is_id changes.id t.id ≡ true
      → changes.is_open ≢ some (some false)
      → IsTimed timeouts t
      → IsTimed timeouts (merge changes t)
  unfolding merge
  merge-IsTimed changes t timeouts same keeps p e =
      rw (given_id changes.id t.id same) (p (given_open changes.is_open t.is_open keeps e))

  AllTimed-update :
      (changes : Changes N) (ts : List (ToasterToast N)) (timeouts : List String)
      → changes.is_open ≢ some (some false)
      → AllTimed timeouts ts
      → AllTimed timeouts (map (λ t. if is_id changes.id t.id then merge changes t else t) ts)
  AllTimed-update changes ts timeouts keeps =
      All-map (IsTimed timeouts) (IsTimed timeouts)
        (λ t. if is_id changes.id t.id then merge changes t else t)
        (λ t p. elim (Bool-cases (is_id changes.id t.id)) [
          | inl e ↦ rw e (merge-IsTimed changes t timeouts e keeps p)
          | inr e ↦ rw e p
        ])
        ts

  -- An action of the reducer keeps a timer for every closed toast, unless the toast is added or
  -- updated closed.
  abbrev pub OpensOnly : Action N → Type 0
  OpensOnly (add_toast t) = t.is_open ≢ some false
  OpensOnly (update_toast changes) = changes.is_open ≢ some (some false)
  OpensOnly _ = Unit

  pub AllTimed-reduce :
      (ts : List (ToasterToast N)) (action : Action N) (timeouts : List String)
      → OpensOnly action
      → AllTimed timeouts ts
      → AllTimed (reduce_timeouts ts action timeouts) (reduce ts action)
  unfolding reduce reduce_timeouts
  AllTimed-reduce ts (add_toast t) timeouts opens h = ((λ e. absurd (opens e)), tt)
  AllTimed-reduce ts (update_toast changes) timeouts opens h =
      AllTimed-update changes ts timeouts opens h
  AllTimed-reduce ts (dismiss_toast id) timeouts opens h = AllTimed-dismiss id ts timeouts h
  AllTimed-reduce ts (remove_toast none) timeouts opens h = tt
  AllTimed-reduce ts (remove_toast (some id)) timeouts opens h =
      All-imp (λ t. IsTimed timeouts t × (not (t.id == id) ≡ true)) (IsTimed timeouts) (λ t p. p.0)
        (filter (λ t. not (t.id == id)) ts)
        (All-filter (IsTimed timeouts) (λ t. not (t.id == id)) ts h)
