-- ===== src/ResourcePolicies/Page.antt =====
-- The pages over the policy store: frontend/src/pages/policy/ResourcePoliciesPage.tsx, the dialog
-- frontend/components/dashboard/policy/resource-policies/create-resource-policy-modal.tsx, and
-- frontend/src/pages/policy/ResourcePolicyDetailPage.tsx.
use Prim.Native.Nat.{Ordering}
use Prim.Native.String.{◌++◌ as append}
use group_management_ui_back.Api.Encoding.{encode_uri_component}
use group_management_ui_back.Prelude.{
  ◌&&◌, ◌||◌, not, map, sort, true, String, Bool, false, Option, none, some, List, if◌then◌else◌,
  is_blank, trim,
}
use group_management_ui_back.Storage.{Browser}
use group_management_ui_back.ResourcePolicies.{
  DeviceSecurityMode, ResourcePolicy, Parsed, Entropy, Failure, ok, err,
  ensure_default_resource_policy, list_resource_policies, get_resource_policy,
  create_resource_policy, save_resource_policy, delete_resource_policy,
}

pub data DialogError : Type 0 where
  missing_name : DialogError
  -- the message of the exception
  refused : Failure → DialogError

-- The state of the dialog.
pub record Dialog : Type 0 where
  pub name : String
  pub is_creating : Bool
  pub error : Option DialogError

-- The state of the page.
pub record State : Type 0 where
  pub policies : List ResourcePolicy
  pub is_create_open : Bool

unfoldable pub load : State → Browser Parsed → State × Browser Parsed
load s b =
    let (loaded, b') = list_resource_policies (ensure_default_resource_policy b) in
    (record s { policies = loaded }, b')

-- `handleDelete`, with the answer to the question.
unfoldable pub handle_delete :
    ResourcePolicy → Bool → State → Browser Parsed → State × Browser Parsed
unfolding load
handle_delete p confirmed s b =
    let rest = load s (delete_resource_policy p.id b) in
    if p.is_default then (s, b) else if confirmed then rest else (s, b)

-- The `onCreated` and the `onClose` that the page hands to the dialog.
abbrev created_through : State → Browser Parsed → State × Browser Parsed
created_through s b = load (record s { is_create_open = false }) b

abbrev pub close_dialog : State → State
close_dialog s = record s { is_create_open = false }

-- `handleCreate` of the dialog, on the page that shows it.
unfoldable pub handle_create :
    (String → String)
    → Entropy
    → Dialog
    → State
    → Browser Parsed
    → Dialog × (State × Browser Parsed)
handle_create lower e d s b =
    if is_blank (trim d.name)
    then (record d { error = some missing_name }, (s, b))
    else let (result, b') = create_resource_policy lower e (trim d.name) b in
      elim result [
        | err failure ↦ (record d { is_creating = false; error = some (refused failure) }, (s, b'))
        | ok p ↦ (record d { name = ""; is_creating = false; error = none }, created_through s b')
      ]

-- The comparison of `sorted`; `compare` stands for `localeCompare`.
unfoldable pub order : (String → String → Ordering) → ResourcePolicy → ResourcePolicy → Ordering
order compare a b =
    if a.is_default && not b.is_default
    then Ordering.lt
    else if not a.is_default && b.is_default
    then Ordering.gt
    else compare a.name b.name

abbrev pub is_gt : Ordering → Bool
is_gt Ordering.gt = true
is_gt _ = false

-- `sorted`
unfoldable pub sorted : (String → String → Ordering) → State → List ResourcePolicy
unfolding order
sorted compare s = sort (λ a b. not (is_gt (order compare a b))) s.policies

pub record Row : Type 0 where
  pub policy : ResourcePolicy
  pub kind : String
  pub delete_disabled : Bool
  pub link : String

unfoldable pub row : ResourcePolicy → Row
row p = record {
  policy = p;
  kind = if p.is_default then "Default" else "Custom";
  delete_disabled = p.is_default;
  link = append "/dashboard/policy/resource-policies/" (encode_uri_component p.id);
}

unfoldable pub rows : (String → String → Ordering) → State → List Row
unfolding sorted row
rows compare s = map row (sorted compare s)

-- The effect of the detail page, for the identifier in the address.
unfoldable pub open_detail :
    Option String → Option ResourcePolicy → Browser Parsed → Option ResourcePolicy × Browser Parsed
open_detail none shown b = (shown, ensure_default_resource_policy b)
open_detail (some id) shown b =
    let b' = ensure_default_resource_policy b in
    if is_blank id then (shown, b') else get_resource_policy id b'

-- `setDeviceMode`
unfoldable pub set_device_mode :
    DeviceSecurityMode
    → Option ResourcePolicy
    → Browser Parsed
    → Option ResourcePolicy × Browser Parsed
set_device_mode mode none b = (none, b)
set_device_mode mode (some p) b =
    let next = record p { mode = mode } in (some next, save_resource_policy next b)

-- The button "Create Policy" of the page
unfoldable pub open_create : State → State
open_create s = record s { is_create_open = true }

-- `onOpenChange` of the dialog: closing it forgets the error; "Cancel" calls `onClose` alone.
unfoldable pub dialog_open_change : Bool → Dialog → State → Dialog × State
dialog_open_change true d s = (d, s)
dialog_open_change false d s = (record d { error = none }, close_dialog s)

unfoldable pub type_name : String → Dialog → Dialog
type_name name d = record d { name = name }

unfoldable pub create_disabled : Dialog → Bool
create_disabled d = d.is_creating || is_blank (trim d.name)
