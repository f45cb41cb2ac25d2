-- ===== src/Api.antt =====
-- frontend/lib/mock-api.ts: the client of the controller's HTTP interface.
-- `fetch` is a parameter; what it does is a `Fetched`. The casts of the answers to their types are
-- not modelled: a call that succeeds returns the decoded JSON. Logging is left out.
pub mod Encoding
pub mod Outcomes
pub mod Paths
pub mod Calls
pub mod Bodies
mod Tests
use mathlib.Core.Option
use Prim.Native.String.{◌++◌}
use text.Mathlib.Text.{starts_with}
use group_management_ui_back.Prelude.{
  ℕ, String, Bool, true, false, Option, none, some, List, [], ◌∷◌, if◌then◌else◌, is_blank, to_text,
}
use group_management_ui_back.Json.{
  Num, Json, null, bool, num, str, arr, obj, Fields, end, field, field?, get_field, of_texts,
  of_num,
}
use group_management_ui_back.Types.{
  SubjectType, Status, active, inactive, ResourceType, standard, browser, background, Protocol, tcp,
  udp,
}

-- The members of `RequestInit` that the client sets.
pub record Options : Type 0 where
  pub method : Option String
  pub headers : Option (List (String × String))
  pub body : Option Json

-- What `fetch` does: it throws an `Error` with a message or some other value, or it answers.
-- In an answer, `message` is what `res.text()` returns and `decoded` what `res.json()` returns, `none`
-- where that throws.
pub data Fetched : Type 0 where
  throws_error : String → Fetched
  throws_other : Fetched
  answers : (ok : Bool) (status : ℕ) (message : Option String) (decoded : Option Json) → Fetched

pub data Result : Type 0 where
  returns : Json → Result
  -- `throw new Error(message)`
  fails : String → Result
  -- the rejection of `fetch`, of `res.text()` or of `res.json()`, passed on
  rejects : Result

abbrev pub Fetch : Type 0
Fetch = String → Options → Fetched

-- The argument of `fetch`: the options are spread after the headers, and so override them.
unfoldable pub init : Options → Options
init options = record options {
  headers = some (elim options.headers [
    | some given ↦ given
    | none ↦ ("Content-Type", "application/json") ∷ []
  ]);
}

abbrev pub decode_answer : Option Json → Result
decode_answer none = rejects
decode_answer (some v) = returns v

-- `message || fallback`
abbrev pub or_else : String → String → String
or_else message fallback = if is_blank message then fallback else message

-- The part after `fetch` that `request` and `requestLocal` share.
unfoldable pub read_answer : Bool → ℕ → Option String → Option Json → Result
read_answer true status message decoded = decode_answer decoded
read_answer false status none decoded = rejects
read_answer false status (some message) decoded =
    fails (or_else message ("Request failed with " ++ to_text status))

abbrev pub subject_type : SubjectType → String
subject_type SubjectType.user = "USER"
subject_type SubjectType.group = "GROUP"
subject_type SubjectType.service = "SERVICE"

abbrev pub status_text : Status → String
status_text active = "active"
status_text inactive = "inactive"

abbrev pub resource_type : ResourceType → String
resource_type standard = "STANDARD"
resource_type browser = "BROWSER"
resource_type background = "BACKGROUND"

abbrev pub protocol_text : Protocol → String
protocol_text tcp = "TCP"
protocol_text udp = "UDP"

-- The argument of `addResource` and `updateResource`. A port is `undefined` (`none`), `null`
-- (`some none`) or a number.
pub record ResourceData : Type 0 where
  pub network_id : String
  pub name : String
  pub kind : ResourceType
  pub address : String
  pub protocol : Protocol
  pub port_from : Option (Option Num)
  pub port_to : Option (Option Num)
  pub alias : Option String

abbrev pub port_json : Option Num → Json
port_json none = null
port_json (some n) = of_num n

unfoldable pub resource_json : ResourceData → Json
resource_json r = obj (
    field "network_id" (str r.network_id) (
      field "name" (str r.name) (
        field "type" (str (resource_type r.kind)) (
          field "address" (str r.address) (
            field "protocol" (str (protocol_text r.protocol)) (
              field? "port_from" (Option.map port_json r.port_from) (
                field? "port_to" (Option.map port_json r.port_to)
                  (field? "alias" (Option.map str r.alias) end))))))))

-- The bodies of the partial updates: a member that is not given is left out.
unfoldable pub group_json : Option String → Option String → Json
group_json name description =
    obj
      (field? "name" (Option.map str name) (field? "description" (Option.map str description) end))

unfoldable pub user_json : Option String → Option String → Option Status → Json
user_json name email status = obj (
    field? "name" (Option.map str name) (
      field? "email" (Option.map str email)
        (field? "status" (Option.map (λ s. str (status_text s)) status) end)))

-- The body of a heartbeat: an absent or empty token leaves it empty.
abbrev pub token_fields : Option String → Fields
token_fields none = end
token_fields (some token) = if is_blank token then end else field "enrollmentToken" (str token) end

unfoldable pub full_url : String → String → String
full_url base path = if starts_with path "http" then path else base ++ path

-- The part of `request` after the call of `fetch`, its `catch` included.
unfoldable pub read_fetched : Fetched → Result
unfolding read_answer
read_fetched (throws_error message) = fails ("Network error: " ++ message)
read_fetched throws_other = fails "Network error: unknown"
read_fetched (answers ok status message decoded) = read_answer ok status message decoded

unfoldable pub request : String → Fetch → String → Options → Result
unfolding full_url init read_fetched
request base fetch path options = read_fetched (fetch (full_url base path) (init options))

-- The part of `requestLocal` after the call of `fetch`.
unfoldable pub read_local : Fetched → Result
unfolding read_answer
read_local (answers ok status message decoded) = read_answer ok status message decoded
read_local _ = rejects

unfoldable pub request_local : Fetch → String → Options → Result
unfolding init read_local
request_local fetch path options = read_local (fetch path (init options))
