-- ===== src/Api/Paths.antt =====
-- Which paths the calls ask for: encoded identifiers stay in their segment, raw ones need not.
use Prim.Native.String.{◌++◌}
use text.Mathlib.TextLemmas.{append_assoc}
use group_management_ui_back.Prelude.{String, ◌≡◌, refl, Option, none, some}
use group_management_ui_back.Json.{Json, str, obj, end, field}
use group_management_ui_back.Types.{Status}
use group_management_ui_back.Api.{Result, Fetch, request, group_json, user_json}
use group_management_ui_back.Api.Calls.{
  update_group, delete_group, update_user, get_user, deactivate_user, delete_user, ping_connector,
  remove_group_member,
}
use group_management_ui_back.Api.Encoding.{encode_uri_component, IsSegment, encode-IsSegment}

module _ (base : String) (fetch : Fetch) where
  -- The call makes one request, with the method and the body, for one segment below the
  -- collection.
  abbrev pub Within : Option String → String → Option Json → Result → Type 0
  Within method collection body call =
      (segment : String) × IsSegment segment
      × (call
          ≡ request base fetch (collection ++ segment)
              (record { method = method; headers = none; body = body }))

  -- Whatever the identifier is, these calls make one request, with their method and body, for a
  -- path that is their collection's followed by a text with no slash, question mark or number sign.
  pub encoded_calls :
      (id : String) (name email description : Option String) (status : Option Status)
      → Within
          (some "PUT")
          "/api/groups/"
          (some (group_json name description))
          (update_group base fetch id name description)
        × Within (some "DELETE") "/api/groups/" none (delete_group base fetch id)
        × Within
            (some "PUT")
            "/api/users/"
            (some (user_json name email status))
            (update_user base fetch id name email status)
        × Within none "/api/users/" none (get_user base fetch id)
        × Within
            (some "PATCH")
            "/api/users/"
            (some (obj (field "status" (str "inactive") end)))
            (deactivate_user base fetch id)
        × Within (some "DELETE") "/api/users/" none (delete_user base fetch id)
        × Within (some "POST") "/api/diagnostics/ping/" none (ping_connector base fetch id)
  unfolding update_group delete_group update_user get_user deactivate_user delete_user
      ping_connector
  encoded_calls id name email description status =
      let e = encode-IsSegment id in
      let s = encode_uri_component id in
      (
        (s, e, refl),
        (s, e, refl),
        (s, e, refl),
        (s, e, refl),
        (s, e, refl),
        (s, e, refl),
        (s, e, refl),
      )

  -- Identifiers that go into a path as they are can be confused: a slash moves the border between
  -- the group and the user, for every group and all users.
  pub raw_calls_collide :
      (group user other : String)
      → remove_group_member base fetch group (user ++ ("/members/" ++ other))
        ≡ remove_group_member base fetch (group ++ ("/members/" ++ user)) other
  unfolding remove_group_member
  raw_calls_collide group user other = simp append_assoc
