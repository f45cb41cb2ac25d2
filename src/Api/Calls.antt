-- ===== src/Api/Calls.antt =====
-- frontend/lib/mock-api.ts: the calls that the client exports, one function for each.
use Prim.Native.String.{◌++◌}
use group_management_ui_back.Prelude.{
  String, Bool, Option, none, some, List, if◌then◌else◌, is_blank,
}
use group_management_ui_back.Json.{Json, null, bool, str, arr, obj, end, field, get_field, of_texts}
use group_management_ui_back.Types.{SubjectType, Status}
use group_management_ui_back.Api.{
  Result, returns, fails, rejects, Fetch, request, request_local, subject_type, status_text,
  ResourceData, resource_json, group_json, user_json, token_fields,
}
use group_management_ui_back.Api.Encoding.{encode_uri_component}

-- The count of an access rule: a member of the answer, `undefined`, or a failure.
pub data Counted : Type 0 where
  counted : Option Json → Counted
  failed : Result → Counted

abbrev pub count_of : Result → Counted
count_of (returns null) = failed rejects
count_of (returns (obj fs)) = counted (get_field "count" fs)
count_of (returns _) = counted none
count_of (fails message) = failed (fails message)
count_of rejects = failed rejects

module _ (base : String) (fetch : Fetch) where
  -- `request(path)`
  get : String → Result
  unfolding request
  get path = request base fetch path (record { method = none; headers = none; body = none })

  -- `request(path, { method })`
  send : String → String → Result
  unfolding request
  send method path =
      request base fetch path (record { method = some method; headers = none; body = none })

  -- `request(path, { method, body: JSON.stringify(content) })`
  send_json : String → String → Json → Result
  unfolding request
  send_json method path content =
      request base fetch path (record { method = some method; headers = none; body = some content })

  unfoldable pub get_remote_network : String → Result
  unfolding get
  get_remote_network id = get ("/api/remote-networks/" ++ id)

  unfoldable pub get_connector : String → Result
  unfolding get
  get_connector id = get ("/api/connectors/" ++ id)

  unfoldable pub get_remote_networks : Result
  unfolding get
  get_remote_networks = get ("/api/remote-networks")

  unfoldable pub add_remote_network : String → String → Result
  unfolding send_json
  add_remote_network name location =
      send_json "POST" "/api/remote-networks"
        (obj (field "name" (str name) (field "location" (str location) end)))

  unfoldable pub get_connectors : Result
  unfolding get
  get_connectors = get ("/api/connectors")

  unfoldable pub get_tunnelers : Result
  unfolding get
  get_tunnelers = get ("/api/tunnelers")

  unfoldable pub get_subjects : Result
  unfolding get
  get_subjects = get ("/api/subjects")

  unfoldable pub get_subjects_by_type : Option SubjectType → Result
  unfolding get_subjects get
  get_subjects_by_type none = get_subjects
  get_subjects_by_type (some type) =
      get ("/api/subjects?type=" ++ encode_uri_component (subject_type type))

  unfoldable pub get_groups : Result
  unfolding get
  get_groups = get ("/api/groups")

  unfoldable pub get_group : String → Result
  unfolding get
  get_group id = get ("/api/groups/" ++ id)

  unfoldable pub update_group : String → Option String → Option String → Result
  unfolding send_json
  update_group id name description =
      send_json "PUT" ("/api/groups/" ++ encode_uri_component id) (group_json name description)

  unfoldable pub delete_group : String → Result
  unfolding send
  delete_group id = send "DELETE" ("/api/groups/" ++ encode_uri_component id)

  unfoldable pub get_users : Result
  unfolding get
  get_users = get ("/api/users")

  unfoldable pub add_user : String → String → Status → Result
  unfolding send_json
  add_user name email status = send_json "POST" "/api/users" (
      obj (
        field "name" (str name)
          (field "email" (str email) (field "status" (str (status_text status)) end))))

  unfoldable pub update_user : String → Option String → Option String → Option Status → Result
  unfolding send_json
  update_user id name email status =
      send_json "PUT" ("/api/users/" ++ encode_uri_component id) (user_json name email status)

  unfoldable pub get_user : String → Result
  unfolding get
  get_user id = get ("/api/users/" ++ encode_uri_component id)

  unfoldable pub deactivate_user : String → Result
  unfolding send_json
  deactivate_user id =
      send_json "PATCH" ("/api/users/" ++ encode_uri_component id)
        (obj (field "status" (str "inactive") end))

  unfoldable pub delete_user : String → Result
  unfolding send
  delete_user id = send "DELETE" ("/api/users/" ++ encode_uri_component id)

  unfoldable pub create_enrollment_token : Result
  unfolding send request_local
  create_enrollment_token =
      if is_blank base
      then request_local fetch "/api/tokens"
          (record { method = some "POST"; headers = none; body = none })
      else send "POST" "/api/admin/tokens"

  unfoldable pub get_service_accounts : Result
  unfolding get
  get_service_accounts = get ("/api/service-accounts")

  unfoldable pub get_resource : String → Result
  unfolding get
  get_resource id = get ("/api/resources/" ++ id)

  unfoldable pub get_resources : Result
  unfolding get
  get_resources = get ("/api/resources")

  unfoldable pub add_resource : ResourceData → Result
  unfolding send_json
  add_resource resource = send_json "POST" "/api/resources" (resource_json resource)

  unfoldable pub update_resource : String → ResourceData → Result
  unfolding send_json
  update_resource id resource = send_json "PUT" ("/api/resources/" ++ id) (resource_json resource)

  unfoldable pub add_connector : String → String → Result
  unfolding send_json
  add_connector name network =
      send_json "POST" "/api/connectors"
        (obj (field "name" (str name) (field "remoteNetworkId" (str network) end)))

  unfoldable pub simulate_connector_heartbeat : String → Option String → Result
  unfolding send_json
  simulate_connector_heartbeat id token =
      send_json "POST" ("/api/connectors/" ++ (id ++ "/heartbeat")) (obj (token_fields token))

  unfoldable pub add_group : String → String → Result
  unfolding send_json
  add_group name description =
      send_json "POST" "/api/groups"
        (obj (field "name" (str name) (field "description" (str description) end)))

  unfoldable pub add_group_resources : String → List String → Result
  unfolding send_json
  add_group_resources group ids =
      send_json "POST" ("/api/groups/" ++ (group ++ "/resources"))
        (obj (field "resourceIds" (arr (of_texts ids)) end))

  unfoldable pub update_group_members : String → List String → Result
  unfolding send_json
  update_group_members group ids =
      send_json "POST" ("/api/groups/" ++ (group ++ "/members"))
        (obj (field "memberIds" (arr (of_texts ids)) end))

  unfoldable pub create_access_rule : String → String → List String → Bool → Result
  unfolding send_json
  create_access_rule resource name groups enabled = send_json "POST" "/api/access-rules" (
      obj (
        field "resourceId" (str resource) (
          field "name" (str name)
            (field "groupIds" (arr (of_texts groups)) (field "enabled" (bool enabled) end)))))

  unfoldable pub delete_access_rule : String → Result
  unfolding send
  delete_access_rule rule = send "DELETE" ("/api/access-rules/" ++ rule)

  -- `res.count` throws at `null`, and is `undefined` where the answer has no such member.
  unfoldable pub get_access_rule_identity_count : String → Counted
  unfolding get
  get_access_rule_identity_count rule =
      count_of (get ("/api/access-rules/" ++ (rule ++ "/identity-count")))

  unfoldable pub remove_group_member : String → String → Result
  unfolding send
  remove_group_member group user =
      send "DELETE" ("/api/groups/" ++ (group ++ ("/members/" ++ user)))

  unfoldable pub get_diagnostics : Result
  unfolding get
  get_diagnostics = get ("/api/diagnostics")

  unfoldable pub ping_connector : String → Result
  unfolding send
  ping_connector id = send "POST" ("/api/diagnostics/ping/" ++ encode_uri_component id)

  unfoldable pub trace_access : String → String → Result
  unfolding send_json
  trace_access user resource =
      send_json "POST" "/api/diagnostics/trace"
        (obj (field "userId" (str user) (field "resourceId" (str resource) end)))
