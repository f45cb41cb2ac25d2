-- ===== src/Api/Tests.antt =====
-- Runs of the client, and its theorems at concrete inputs.

use group_management_ui_back.Prelude.{
  ◌≡◌, ◌↔◌, refl, none, some, true, false, ◌==◌, if◌then◌else◌, to_text,
}
use group_management_ui_back.Json.{null, str, obj, end, field, int}
use group_management_ui_back.Types.{standard, udp}
use group_management_ui_back.Api.{
  Options, throws_error, answers, returns, fails, rejects, Fetch, init, full_url, request,
  request_local, ResourceData, group_json, user_json,
}
use group_management_ui_back.Api.Calls.{
  update_group, delete_group, update_user, get_user, deactivate_user, delete_user, ping_connector,
}
use group_management_ui_back.Api.Outcomes.{Accounts, request-Accounts}
use group_management_ui_back.Api.Encoding.{encode_uri_component}
use group_management_ui_back.Api.Paths.{Within, encoded_calls}

-- A server that knows one user, and a network that fails at another address.
abbrev fetch : Fetch
fetch url options =
    if url == "http://b/api/users/u1"
    then answers true 200 (some "") (some null)
    else if url == "/api/users/u1"
    then throws_error "offline"
    else answers false 404 (some "") none

abbrev plain : Options
plain = record { method = none; headers = none; body = none }

known_test : get_user "http://b" fetch "u1" ≡ returns null
unfolding get_user request encode_uri_component to_text
known_test = refl

unknown_test : get_user "http://b" fetch "u/1" ≡ fails "Request failed with 404"
unfolding get_user request encode_uri_component to_text
unknown_test = refl

local_test : request_local fetch "/api/users/u1" plain ≡ rejects
unfolding request_local
local_test = refl

request-Accounts_example :
    (request "http://b" fetch "/api/groups/g1" plain ≡ fails "Request failed with 404")
    ↔ Accounts
        (fetch (full_url "http://b" "/api/groups/g1") (init plain))
        (fails "Request failed with 404")
request-Accounts_example =
    request-Accounts "http://b" fetch "/api/groups/g1" plain (fails "Request failed with 404")

encoded_calls_example :
    Within "http://b" fetch
      (some "PUT")
      "/api/groups/"
      (some (group_json (some "n") none))
      (update_group "http://b" fetch "a/b" (some "n") none)
    × Within "http://b" fetch
        (some "DELETE")
        "/api/groups/"
        none
        (delete_group "http://b" fetch "a/b")
    × Within "http://b" fetch
        (some "PUT")
        "/api/users/"
        (some (user_json (some "n") (some "e") none))
        (update_user "http://b" fetch "a/b" (some "n") (some "e") none)
    × Within "http://b" fetch none "/api/users/" none (get_user "http://b" fetch "a/b")
    × Within "http://b" fetch
        (some "PATCH")
        "/api/users/"
        (some (obj (field "status" (str "inactive") end)))
        (deactivate_user "http://b" fetch "a/b")
    × Within "http://b" fetch
        (some "DELETE")
        "/api/users/"
        none
        (delete_user "http://b" fetch "a/b")
    × Within "http://b" fetch
        (some "POST")
        "/api/diagnostics/ping/"
        none
        (ping_connector "http://b" fetch "a/b")
encoded_calls_example = encoded_calls "http://b" fetch "a/b" (some "n") (some "e") none none

abbrev web : ResourceData
web = record {
  network_id = "n1";
  name = "web";
  kind = standard;
  address = "10.0.0.2";
  protocol = udp;
  port_from = some (some (int 80));
  port_to = some none;
  alias = none;
}
