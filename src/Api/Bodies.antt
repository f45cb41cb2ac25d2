-- ===== src/Api/Bodies.antt =====
-- What the bodies of requests say, member by member.
use mathlib.Core.Option
use group_management_ui_back.Prelude.{String, ◌≡◌, arith, Option, none, some}
use group_management_ui_back.Json.{
  Num, nan, infinite, unsigned_zero, finite, Json, null, num, str, obj, get_field,
}
use group_management_ui_back.Types.{Status}
use group_management_ui_back.Api.{
  status_text, resource_type, protocol_text, ResourceData, resource_json, group_json, user_json,
}

-- A member of a body.
abbrev pub member : String → Json → Option Json
member name (obj fs) = get_field name fs
member name _ = none

-- What a reader finds for a port: nothing where it is not given, `null` where it is none or is not
-- a finite number, and the number otherwise, with 0 for -0.
abbrev pub sent_port : Option (Option Num) → Option Json
sent_port none = none
sent_port (some none) = some null
sent_port (some (some nan)) = some null
sent_port (some (some (infinite _))) = some null
sent_port (some (some (finite negative whole fraction))) =
    some (num (unsigned_zero (finite negative whole fraction)))

-- Every member of a resource is found in its body under its own name; a port that is no finite
-- number is sent as `null`, and a missing alias is not sent.
pub resource_json_members :
    (r : ResourceData)
    → (member "network_id" (resource_json r) ≡ some (str r.network_id))
      × (member "name" (resource_json r) ≡ some (str r.name))
      × (member "type" (resource_json r) ≡ some (str (resource_type r.kind)))
      × (member "address" (resource_json r) ≡ some (str r.address))
      × (member "protocol" (resource_json r) ≡ some (str (protocol_text r.protocol)))
      × (member "port_from" (resource_json r) ≡ sent_port r.port_from)
      × (member "port_to" (resource_json r) ≡ sent_port r.port_to)
      × (member "alias" (resource_json r) ≡ Option.map str r.alias)
unfolding resource_json get_field
resource_json_members r = ground arith

-- A partial update sends the members that are given, and no others.
pub update_members :
    (name email description : Option String) (status : Option Status)
    → (member "name" (group_json name description) ≡ Option.map str name)
      × (member "description" (group_json name description) ≡ Option.map str description)
      × (member "name" (user_json name email status) ≡ Option.map str name)
      × (member "email" (user_json name email status) ≡ Option.map str email)
      × (member "status" (user_json name email status)
          ≡ Option.map (λ s. str (status_text s)) status)
unfolding group_json user_json get_field
update_members name email description status = ground arith
