-- ===== src/Toasts/Timers.antt =====
-- The timers: which identifiers `addToRemoveQueue` holds.
use group_management_ui_back.Prelude.{
  String, ◌≡◌, ◌≢◌, sym, refl, true, false, Option, none, some, List, [], ◌∷◌, ◌++◌, ◌==◌, ◌||◌,
  not, eq_iff, eq_refl, includes, filter, Bool-cases, inl, inr, arith, KeysDistinct, LacksKey,
  is_blank, All,
}
use group_management_ui_back.Toasts.{ToasterToast, add_to_remove_queue, queue_all, queue_dismissed}

-- The timer of an identifier is set.
abbrev pub IsPending : String → List String → Type 0
IsPending id timeouts = includes id timeouts ≡ true

abbrev pub Unique : List String → Type 0
Unique = KeysDistinct (λ id. id)

includes-append :
    (id : String) (xs ys : List String)
    → includes id (xs ++ ys) ≡ (includes id xs || includes id ys)
includes-append id [] ys = refl
includes-append id (x ∷ xs) ys = ground (arith, includes-append id xs ys)

LacksKey-of_includes :
    (id : String) (xs : List String) → includes id xs ≡ false → LacksKey (λ x. x) id xs
LacksKey-of_includes id [] h = tt
LacksKey-of_includes id (x ∷ xs) h =
    ((λ e. ground (arith, eq_iff x id)), LacksKey-of_includes id xs (ground arith))

Unique-append :
    (id : String) (xs : List String) → LacksKey (λ x. x) id xs → Unique xs → Unique (xs ++ id ∷ [])
Unique-append id [] l u = (tt, tt)
Unique-append id (x ∷ xs) (ne, l) (fresh, u) = (LacksKey-append xs fresh, Unique-append id xs l u)
  where
    LacksKey-append :
        (ys : List String) → LacksKey (λ y. y) x ys → LacksKey (λ y. y) x (ys ++ id ∷ [])
    LacksKey-append [] k = ((λ e. ne (sym e)), tt)
    LacksKey-append (y ∷ ys) (other, k) = (other, LacksKey-append ys k)

module _ (id : String) (timeouts : List String) where
  pub queue-IsPending : IsPending id (add_to_remove_queue id timeouts)
  unfolding add_to_remove_queue
  queue-IsPending = elim (Bool-cases (includes id timeouts)) [
    | inl h ↦ rw h h
    | inr h ↦ rw h (rw (includes-append id timeouts (id ∷ [])) (ground (arith, eq_refl id)))
  ]

  pub queue_keeps :
      (other : String)
      → IsPending other timeouts
      → IsPending other (add_to_remove_queue id timeouts)
  unfolding add_to_remove_queue
  queue_keeps other h = elim (Bool-cases (includes id timeouts)) [
    | inl k ↦ rw k h
    | inr k ↦ rw k (rw (includes-append other timeouts (id ∷ [])) (rw h refl))
  ]

  pub queue-Unique : Unique timeouts → Unique (add_to_remove_queue id timeouts)
  unfolding add_to_remove_queue
  queue-Unique u = elim (Bool-cases (includes id timeouts)) [
    | inl h ↦ rw h u
    | inr h ↦ rw h (Unique-append id timeouts (LacksKey-of_includes id timeouts h) u)
  ]

pub IsPending-filter :
    (id other : String) (timeouts : List String)
    → id ≢ other
    → IsPending other timeouts
    → IsPending other (filter (λ x. not (x == id)) timeouts)
IsPending-filter id other [] ne h = h
IsPending-filter id other (x ∷ xs) ne h =
    ground (arith, eq_iff x id, eq_iff x other, IsPending-filter id other xs ne)

module _ {N : Type 0} where
  pub queue_all_keeps :
      (ts : List (ToasterToast N)) (timeouts : List String) (other : String)
      → IsPending other timeouts
      → IsPending other (queue_all ts timeouts)
  unfolding queue_all
  queue_all_keeps [] timeouts other h = h
  queue_all_keeps (t ∷ ts) timeouts other h =
      queue_all_keeps ts (add_to_remove_queue t.id timeouts) other
        (queue_keeps t.id timeouts other h)

  pub queue_all-IsPending :
      (ts : List (ToasterToast N)) (timeouts : List String)
      → All (λ t. IsPending t.id (queue_all ts timeouts)) ts
  unfolding queue_all
  queue_all-IsPending [] timeouts = tt
  queue_all-IsPending (t ∷ ts) timeouts = (
    queue_all_keeps ts (add_to_remove_queue t.id timeouts) t.id (queue-IsPending t.id timeouts),
    queue_all-IsPending ts (add_to_remove_queue t.id timeouts),
  )

  pub queue_all-Unique :
      (ts : List (ToasterToast N)) (timeouts : List String)
      → Unique timeouts
      → Unique (queue_all ts timeouts)
  unfolding queue_all
  queue_all-Unique [] timeouts u = u
  queue_all-Unique (t ∷ ts) timeouts u =
      queue_all-Unique ts (add_to_remove_queue t.id timeouts) (queue-Unique t.id timeouts u)

  -- A dismissal sets no timer twice and stops none.
  pub queue_dismissed-Unique :
      (id : Option String) (ts : List (ToasterToast N)) (timeouts : List String)
      → Unique timeouts
      → Unique (queue_dismissed id ts timeouts)
  unfolding queue_dismissed
  queue_dismissed-Unique none ts timeouts u = queue_all-Unique ts timeouts u
  queue_dismissed-Unique (some id) ts timeouts u = elim (Bool-cases (is_blank id)) [
    | inl h ↦ rw h (queue_all-Unique ts timeouts u)
    | inr h ↦ rw h (queue-Unique id timeouts u)
  ]

  pub queue_dismissed_keeps :
      (id : Option String) (ts : List (ToasterToast N)) (timeouts : List String) (other : String)
      → IsPending other timeouts
      → IsPending other (queue_dismissed id ts timeouts)
  unfolding queue_dismissed
  queue_dismissed_keeps none ts timeouts other h = queue_all_keeps ts timeouts other h
  queue_dismissed_keeps (some id) ts timeouts other h = elim (Bool-cases (is_blank id)) [
    | inl k ↦ rw k (queue_all_keeps ts timeouts other h)
    | inr k ↦ rw k (queue_keeps id timeouts other h)
  ]
