-- ===== src/ResourcePolicies/Events.antt =====
-- frontend/src/pages/policy/ResourcePoliciesPage.tsx with its dialog, over anything that happens to them.
use group_management_ui_back.Prelude.{String, ◌≡◌, Bool, true, false, none, List, [], ◌∷◌}
use group_management_ui_back.Storage.{Browser}
use group_management_ui_back.ResourcePolicies.{ResourcePolicy, Parsed, Entropy}
use group_management_ui_back.ResourcePolicies.Page.{
  State, Dialog, load, handle_delete, handle_create, open_create, close_dialog, dialog_open_change,
  type_name,
}
use group_management_ui_back.ResourcePolicies.Showing.{
  IsShowing, load-IsShowing, delete-IsShowing, create-IsShowing,
}

-- What the user does: the button for a new policy, the name in the dialog, its buttons, its frame, and
-- the button of a row with the answer to the question.
pub data Event : Type 0 where
  opens cancels : Event
  types : String → Event
  creates : Entropy → Event
  changes_dialog : Bool → Event
  deletes : ResourcePolicy → Bool → Event

abbrev pub Whole : Type 0
Whole = Dialog × (State × Browser Parsed)

-- The page and its dialog as they are first rendered, after the effect of the page
unfoldable pub mounted : Browser Parsed → Whole
unfolding load
mounted b = (
  record { name = ""; is_creating = false; error = none },
  load (record { policies = []; is_create_open = false }) b,
)

module _ (lower : String → String) where
  unfoldable pub happen : Event → Whole → Whole
  unfolding open_create dialog_open_change type_name handle_create handle_delete
  happen opens (d, (s, b)) = (d, (open_create s, b))
  happen cancels (d, (s, b)) = (d, (close_dialog s, b))
  happen (types name) (d, (s, b)) = (type_name name d, (s, b))
  happen (creates e) (d, (s, b)) = handle_create lower e d s b
  happen (changes_dialog open_) (d, (s, b)) =
      let (d', s') = dialog_open_change open_ d s in (d', (s', b))
  happen (deletes p confirmed) (d, (s, b)) = (d, handle_delete p confirmed s b)

  abbrev pub happens : List Event → Whole → Whole
  happens [] w = w
  happens (e ∷ es) w = happens es (happen e w)

  happen-IsShowing : (e : Event) (w : Whole) → IsShowing w.1 → IsShowing (happen e w).1
  unfolding happen open_create dialog_open_change
  happen-IsShowing opens (d, (s, b)) h = h
  happen-IsShowing cancels (d, (s, b)) h = h
  happen-IsShowing (types name) (d, (s, b)) h = h
  happen-IsShowing (creates e) (d, (s, b)) h = create-IsShowing lower e d s b h
  happen-IsShowing (changes_dialog true) (d, (s, b)) h = h
  happen-IsShowing (changes_dialog false) (d, (s, b)) h = h
  happen-IsShowing (deletes p confirmed) (d, (s, b)) h = delete-IsShowing p confirmed s b h

  happens-Showing : (es : List Event) (w : Whole) → IsShowing w.1 → IsShowing (happens es w).1
  happens-Showing [] w h = h
  happens-Showing (e ∷ es) w h = happens-Showing es (happen e w) (happen-IsShowing e w h)

  -- Where `window` is defined, the page shows what is stored, whatever happens to it and its dialog
  -- from the first render on.
  pub happens-IsShowing :
      (es : List Event) (b : Browser Parsed)
      → b.has_window ≡ true
      → IsShowing (happens es (mounted b)).1
  unfolding mounted
  happens-IsShowing es b w =
      happens-Showing es (mounted b)
        (load-IsShowing (record { policies = []; is_create_open = false }) b w)
