-- ===== src/ResourcePolicies/Tests.antt =====
-- Runs of the policy store, and its theorems at concrete inputs.
use group_management_ui_back.Prelude.{
  String, ◌≡◌, refl, true, false, none, some, [], ◌∷◌, ◌==◌, if◌then◌else◌, KeysDistinct, LacksKey,
  ◌↔◌, ◌≢◌, trim,
}
use Prim.Native.Nat.{Ordering, compare}
use Prim.Native.String.{len}
use mathlib.Core.List.{Perm}
use group_management_ui_back.Prelude.{List, Pairwise, arith}
use group_management_ui_back.ResourcePolicies.Refining.{Call, run, replay, run_refines}
use group_management_ui_back.ResourcePolicies.RowOrder.{IsOrder, Precedes, sorted_lem}
use group_management_ui_back.ResourcePolicies.Page.{sorted}
use group_management_ui_back.Storage.{Browser, encoding}
use group_management_ui_back.ResourcePolicies.{
  ResourcePolicy, any, Parsed, array, Entropy, ok, err, name_required, name_exists, default_id,
  default_policy, list_resource_policies, create_resource_policy,
}
use group_management_ui_back.ResourcePolicies.Listing.{listed, HasId}
use group_management_ui_back.ResourcePolicies.Editing.{got}
use group_management_ui_back.ResourcePolicies.Naming.{name_key, create-eq-ok_iff}
use group_management_ui_back.Prelude.{inl}
use group_management_ui_back.ResourcePolicies.Page
use group_management_ui_back.ResourcePolicies.Page.{
  Dialog, handle_delete, handle_create, set_device_mode,
}
use group_management_ui_back.ResourcePolicies.{trusted}
use group_management_ui_back.ResourcePolicies.Detail.{Opens, mode_stays}
use group_management_ui_back.ResourcePolicies.Events.{
  Event, opens, types, creates, deletes, happens, mounted, happens-IsShowing,
}
use group_management_ui_back.ResourcePolicies.Showing.{IsShowing}

abbrev empty : Browser Parsed
empty = record { has_window = true; item = none }

abbrev entropy : Entropy
entropy = record { random_uuid = some "7f"; now = "17"; random_hex = "0.8" }

-- Lower case on the one capital that the tests use.
abbrev lower : String → String
lower s = if s == "VPN" then "vpn" else s

abbrev vpn : ResourcePolicy
vpn = record { id = "pol_7f"; name = "VPN"; is_default = false; mode = any }

create_test : create_resource_policy lower entropy " VPN " empty ≡ (
  ok vpn,
  record { has_window = true; item = some (encoding (array (vpn ∷ default_policy ∷ []))) },
)
unfolding create_resource_policy trim
create_test = refl

twice_test :
    (create_resource_policy lower entropy "vpn"
      (create_resource_policy lower entropy " VPN " empty).1).0
    ≡ err name_exists
unfolding create_resource_policy trim
twice_test = refl

distinct_ids : KeysDistinct (λ p. p.id) (listed empty)
unfolding list_resource_policies
distinct_ids = (tt, tt)

create-eq-ok_iff_example :
    ((p : ResourcePolicy) × ((create_resource_policy lower entropy "VPN" empty).0 ≡ ok p))
    ↔ ((trim "VPN" ≢ "") × LacksKey (name_key lower) (lower (trim "VPN")) (listed empty))
create-eq-ok_iff_example = create-eq-ok_iff lower entropy "VPN" empty

vpn_created : (create_resource_policy lower entropy " VPN " empty).0 ≡ ok vpn
unfolding create_resource_policy trim
vpn_created = refl

blank_refused : (create_resource_policy lower entropy "  " empty).0 ≡ err name_required
unfolding create_resource_policy trim
blank_refused = refl

names_distinct : KeysDistinct (name_key lower) (listed empty)
unfolding list_resource_policies
names_distinct = (tt, tt)

abbrev seeded : Browser Parsed
seeded = record { has_window = true; item = some (encoding (array (vpn ∷ default_policy ∷ []))) }

abbrev page : Page.State
page = record { policies = vpn ∷ default_policy ∷ []; is_create_open = true }

-- A policy is created, the default one is to be deleted, and the new one is deleted.
abbrev whole_events : List Event
whole_events =
    opens ∷ types "VPN" ∷ creates entropy ∷ deletes default_policy true ∷ deletes vpn true ∷ []

happens-IsShowing_example : IsShowing (happens lower whole_events (mounted empty)).1
happens-IsShowing_example = happens-IsShowing lower whole_events empty refl

vpn-HasId : HasId vpn.id (listed seeded)
unfolding list_resource_policies
vpn-HasId = inl refl

abbrev calls : List Call
calls =
    Call.creates entropy "VPN"
    ∷ Call.deletes default_id
    ∷ Call.saves vpn
    ∷ Call.deletes "pol_7f"
    ∷ []

run_refines_example :
    (λ id. got id (run lower calls empty).1) ≡ replay (run lower calls empty).0 (λ id. got id empty)
run_refines_example = run_refines lower calls empty refl

-- A comparison of texts by their lengths.
abbrev by_length : String → String → Ordering
by_length s t = compare (len s) (len t)

by_length-IsOrder : IsOrder by_length
by_length-IsOrder = record { flips = λ s t h. ground arith; trans = λ s t u h k. ground arith }

sorted_lem_example :
    Perm (sorted by_length page) page.policies
    × Pairwise (Precedes by_length) (sorted by_length page)
sorted_lem_example = sorted_lem by_length by_length-IsOrder page

mode_stays_example : Opens trusted vpn.id seeded
mode_stays_example = mode_stays trusted vpn.id seeded refl refl vpn-HasId
