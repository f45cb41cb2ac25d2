-- ===== src/ResourcePolicies.antt =====
-- frontend/lib/resource-policies.ts: the resource policies kept in `localStorage`.
-- A function that writes returns the browser's new state; one that throws returns a `Created`.
-- As the cast in `safeParse` does, an array under the key is taken to hold policies.
pub mod Listing
pub mod Naming
pub mod Editing
pub mod Page
pub mod Showing
pub mod Events
pub mod Detail
pub mod Refining
pub mod RowOrder
mod Tests
use Prim.Native.String
use group_management_ui_back.Prelude.{
  String, Bool, true, false, Option, none, some, List, [], ◌∷◌, map, ◌==◌, not, any as some_policy,
  filter, find, if◌then◌else◌, is_blank, trim,
}
use group_management_ui_back.Storage.{
  Stored, blank, garbled, encoding, json_parse, json_stringify, Browser, set_item,
}

pub data DeviceSecurityMode : Type 0 where
  any trusted custom : DeviceSecurityMode

pub record ResourcePolicy : Type 0 where
  pub id : String
  pub name : String
  pub is_default : Bool
  pub mode : DeviceSecurityMode

-- What `JSON.parse` returns: an array, or anything else.
pub data Parsed : Type 0 where
  not_array : Parsed
  array : List ResourcePolicy → Parsed

abbrev pub default_id : String
default_id = "default"

-- What `newId` draws on: `crypto.randomUUID()` where it exists, `Date.now()` and
-- `Math.random().toString(16)`, as texts.
pub record Entropy : Type 0 where
  pub random_uuid : Option String
  pub now : String
  pub random_hex : String

pub data Failure : Type 0 where
  name_required name_exists : Failure

pub data Created : Type 0 where
  ok : ResourcePolicy → Created
  err : Failure → Created

of_parsed : Option Parsed → List ResourcePolicy
of_parsed none = []
of_parsed (some not_array) = []
of_parsed (some (array ps)) = ps

safe_parse : Option (Stored Parsed) → List ResourcePolicy
unfolding of_parsed
safe_parse none = []
safe_parse (some blank) = []
safe_parse (some json) = of_parsed (json_parse json)

unfoldable pub read_all : Browser Parsed → List ResourcePolicy
unfolding safe_parse
read_all b = if b.has_window then safe_parse b.item else []

unfoldable pub write_all : List ResourcePolicy → Browser Parsed → Browser Parsed
write_all policies b = if b.has_window then set_item (array policies) b else b

-- `text.slice(2)`
abbrev drop_two : String → String
drop_two (String.◌∷◌ _ (String.◌∷◌ _ s)) = s
drop_two _ = ""

new_id : Entropy → String → String
new_id e prefix = elim e.random_uuid [
  | some uuid ↦ String.◌++◌ prefix (String.◌++◌ "_" uuid)
  | none ↦
      String.◌++◌ prefix
        (String.◌++◌ "_" (String.◌++◌ e.now (String.◌++◌ "_" (drop_two e.random_hex))))
]

abbrev pub default_policy : ResourcePolicy
default_policy = record { id = default_id; name = "Default Policy"; is_default = true; mode = any }

unfoldable pub ensure_default_resource_policy : Browser Parsed → Browser Parsed
unfolding read_all write_all
ensure_default_resource_policy b =
    let policies = read_all b in
    if some_policy (λ p. p.id == default_id) policies
    then b
    else write_all (default_policy ∷ policies) b

unfoldable pub list_resource_policies : Browser Parsed → List ResourcePolicy × Browser Parsed
unfolding ensure_default_resource_policy
list_resource_policies b = let b' = ensure_default_resource_policy b in (read_all b', b')

unfoldable pub get_resource_policy :
    String → Browser Parsed → Option ResourcePolicy × Browser Parsed
unfolding list_resource_policies
get_resource_policy id b =
    let (policies, b') = list_resource_policies b in (find (λ p. p.id == id) policies, b')

-- `lower` is `String.prototype.toLowerCase`, whose Unicode tables are not part of the program.
unfoldable pub create_resource_policy :
    (String → String) → Entropy → String → Browser Parsed → Created × Browser Parsed
unfolding list_resource_policies new_id
create_resource_policy lower e name b =
    let trimmed = trim name in
    let (policies, b') = list_resource_policies b in
    let exists = some_policy (λ p. lower p.name == lower trimmed) policies in
    let policy : ResourcePolicy = record {
      id = new_id e "pol";
      name = trimmed;
      is_default = false;
      mode = any;
    } in
    if is_blank trimmed
    then (err name_required, b)
    else if exists
    then (err name_exists, b')
    else (ok policy, write_all (policy ∷ policies) b')

unfoldable pub save_resource_policy : ResourcePolicy → Browser Parsed → Browser Parsed
unfolding list_resource_policies
save_resource_policy policy b =
    let (policies, b') = list_resource_policies b in
    write_all (map (λ p. if p.id == policy.id then policy else p) policies) b'

unfoldable pub delete_resource_policy : String → Browser Parsed → Browser Parsed
unfolding list_resource_policies
delete_resource_policy id b =
    let (policies, b') = list_resource_policies b in
    let rest = write_all (filter (λ p. not (p.id == id)) policies) b' in
    if id == default_id then b else rest
