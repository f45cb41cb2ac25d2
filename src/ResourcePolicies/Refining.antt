-- ===== src/ResourcePolicies/Refining.antt =====
-- The store as a map from identifiers to policies: what any sequence of calls comes to.
use mathlib.Core.Path.{fun_ext}
use group_management_ui_back.Prelude.{
  String, ◌≡◌, refl, ap, sym, ◌∙◌, true, Option, none, some, List, [], ◌∷◌, if◌then◌else◌, inl, inr,
  find, any as some_policy, ◌==◌, arith,
}
use group_management_ui_back.Storage.{Browser}
use group_management_ui_back.ResourcePolicies.{
  ResourcePolicy, Parsed, Entropy, Created, ok, err, default_id, create_resource_policy,
  save_resource_policy, delete_resource_policy,
}
use group_management_ui_back.ResourcePolicies.Listing.{listed}
use group_management_ui_back.ResourcePolicies.Editing.{got, get-eq-find, get-save, get-delete}
use group_management_ui_back.ResourcePolicies.Naming.{create_listed, create_refused}
use group_management_ui_back.ResourcePolicies.Showing.{
  save-window, delete-window, create-window, Created-cases,
}

-- A call of the store.
pub data Call : Type 0 where
  creates : Entropy → String → Call
  saves : ResourcePolicy → Call
  deletes : String → Call

-- A change of a map from identifiers to policies.
pub data Change : Type 0 where
  puts replaces : ResourcePolicy → Change
  removes : String → Change
  keeps : Change

abbrev pub Lookup : Type 0
Lookup = String → Option ResourcePolicy

abbrev pub if_found : ResourcePolicy → Option ResourcePolicy → Option ResourcePolicy
if_found p none = none
if_found p (some _) = some p

-- A replacement adds nothing, and the default policy is not removed.
abbrev pub change : Change → Lookup → Lookup
change (puts p) f j = if p.id == j then some p else f j
change (replaces p) f j = if p.id == j then if_found p (f p.id) else f j
change (removes id) f j = if id == default_id then f j else if id == j then none else f j
change keeps f j = f j

abbrev pub replay : List Change → Lookup → Lookup
replay [] f = f
replay (c ∷ cs) f = replay cs (change c f)

-- What a call does to the map.
abbrev change_of_created : Created → Change
change_of_created (ok p) = puts p
change_of_created (err x) = keeps

module _ (lower : String → String) where
  unfoldable pub step : Call → Browser Parsed → Change × Browser Parsed
  step (creates e name) b =
      let (result, b') = create_resource_policy lower e name b in (change_of_created result, b')
  step (saves p) b = (replaces p, save_resource_policy p b)
  step (deletes id) b = (removes id, delete_resource_policy id b)

  -- The changes of a sequence of calls, and the storage after them.
  unfoldable pub run : List Call → Browser Parsed → List Change × Browser Parsed
  run [] b = ([], b)
  run (c ∷ cs) b = let (first, b1) = step c b in let (rest, b2) = run cs b1 in (first ∷ rest, b2)

any-find :
    (id : String) (ps : List ResourcePolicy) (p : ResourcePolicy)
    → (if some_policy (λ q. q.id == id) ps then some p else none)
      ≡ if_found p (find (λ q. q.id == id) ps)
any-find id [] p = refl
any-find id (q ∷ ps) p = ground (arith, any-find id ps p)

module _ (lower : String → String) (b : Browser Parsed) (w : b.has_window ≡ true) where
  save-change :
      (p : ResourcePolicy) (j : String)
      → got j (save_resource_policy p b) ≡ change (replaces p) (λ i. got i b) j
  save-change p j =
      get-save b w p j
      ∙ ap (λ found. if p.id == j then found else got j b)
          (any-find p.id (listed b) p ∙ ap (if_found p) (sym (get-eq-find p.id b)))

  create-change :
      (e : Entropy) (name j : String)
      → got j (create_resource_policy lower e name b).1
        ≡ change (change_of_created (create_resource_policy lower e name b).0) (λ i. got i b) j
  create-change e name j = elim (Created-cases (create_resource_policy lower e name b).0) [
    | inl (p, c) ↦
        let (_, _, l, _) = create_listed lower e name b w p c in
        rw (c, get-eq-find j (create_resource_policy lower e name b).1, l, get-eq-find j b) refl
    | inr (x, c) ↦
        rw
          (
            c,
            get-eq-find j (create_resource_policy lower e name b).1,
            create_refused lower e name b w x c,
            get-eq-find j b,
          )
          refl
  ]

  step-window : (c : Call) → (step lower c b).1.has_window ≡ true
  unfolding step
  step-window (creates e name) = create-window lower e name b w
  step-window (saves p) = save-window p b w
  step-window (deletes id) = delete-window id b w

  step-change :
      (c : Call) (j : String)
      → got j (step lower c b).1 ≡ change (step lower c b).0 (λ i. got i b) j
  unfolding step
  step-change (creates e name) j = create-change e name j
  step-change (saves p) j = save-change p j
  step-change (deletes id) j = get-delete b w id j

-- Where `window` is defined, what any sequence of calls leaves to be found under an identifier is
-- what the changes that its calls stand for make of what was found before: a creation puts the
-- policy that it returns, or changes nothing where it is refused; saving replaces; and deleting
-- removes all but the default policy.
pub run_refines :
    (lower : String → String) (cs : List Call) (b : Browser Parsed)
    → b.has_window ≡ true
    → (λ id. got id (run lower cs b).1) ≡ replay (run lower cs b).0 (λ id. got id b)
unfolding run
run_refines lower [] b w = refl
run_refines lower (c ∷ cs) b w =
    run_refines lower cs (step lower c b).1 (step-window lower b w c)
    ∙ ap (replay (run lower cs (step lower c b).1).0) (fun_ext (step-change lower b w c))
