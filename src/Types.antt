-- ===== src/Types.antt =====
-- frontend/lib/types.ts: the objects that the server sends and the components show.
-- An optional or nullable member is an `Option`; `extends Subject` repeats the members.
use group_management_ui_back.Prelude.{ℕ, String, Bool, Option, List}

pub data SubjectType : Type 0 where
  user group service : SubjectType

pub record Subject : Type 0 where
  pub id : String
  pub name : String
  pub kind : SubjectType
  pub display_label : String

pub data Status : Type 0 where
  active inactive : Status

pub record User : Type 0 where
  pub id : String
  pub name : String
  pub display_label : String
  pub email : String
  pub status : Status
  pub groups : List String
  pub certificate_identity : Option String
  pub created_at : String

pub record Group : Type 0 where
  pub id : String
  pub name : String
  pub display_label : String
  pub description : String
  pub member_count : ℕ
  pub resource_count : ℕ
  pub created_at : String
  pub updated_at : Option String

pub record ServiceAccount : Type 0 where
  pub id : String
  pub name : String
  pub display_label : String
  pub status : Status
  pub associated_resource_count : ℕ
  pub created_at : String

pub record GroupMember : Type 0 where
  pub user_id : String
  pub user_name : String
  pub email : String

pub data ResourceType : Type 0 where
  standard browser background : ResourceType

pub data Protocol : Type 0 where
  tcp udp : Protocol

pub record Resource : Type 0 where
  pub id : String
  pub name : String
  pub kind : ResourceType
  pub address : String
  pub protocol : Protocol
  pub port_from : Option ℕ
  pub port_to : Option ℕ
  pub alias : Option String
  pub description : String
  pub remote_network_id : Option String

pub data Liveness : Type 0 where
  online offline : Liveness

pub record Connector : Type 0 where
  pub id : String
  pub name : String
  pub status : Liveness
  pub version : String
  pub hostname : String
  pub remote_network_id : String
  pub last_seen : String
  pub installed : Bool
  pub last_policy_version : ℕ
  pub last_seen_at : Option String
  pub private_ip : Option String

pub data Location : Type 0 where
  aws gcp azure on_prem other : Location

pub record RemoteNetwork : Type 0 where
  pub id : String
  pub name : String
  pub location : Location
  pub connector_count : ℕ
  pub online_connector_count : ℕ
  pub resource_count : ℕ
  pub created_at : String
  pub updated_at : String

pub record Tunneler : Type 0 where
  pub id : String
  pub name : String
  pub status : Liveness
  pub version : String
  pub hostname : String
  pub remote_network_id : String

pub record AccessRule : Type 0 where
  pub id : String
  pub name : String
  pub resource_id : String
  pub allowed_groups : List String
  pub enabled : Bool
  pub created_at : String
  pub updated_at : String

pub record SelectedSubject : Type 0 where
  pub id : String
  pub kind : SubjectType
  pub label : String

-- A number of seconds below or from 0 on, in billionths, the precision in which the controller takes
-- the times that it subtracts.
pub data Seconds : Type 0 where
  before since : ℕ → Seconds

pub record ConnectorDiagnostic : Type 0 where
  pub id : String
  pub name : String
  pub status : String
  pub stream_active : Bool
  pub staleness_seconds : Seconds
  pub last_seen_at : Option String
  pub remote_network_id : String

pub record TunnelerDiagnostic : Type 0 where
  pub id : String
  pub name : String
  pub status : String
  pub last_seen_at : Option String

pub record DiagnosticsData : Type 0 where
  pub connectors : List ConnectorDiagnostic
  pub tunnelers : List TunnelerDiagnostic

pub record PingResult : Type 0 where
  pub connector_id : String
  pub stream_active : Bool
  pub staleness_seconds : Seconds
  pub last_seen_at : Option String
  pub message : String

pub data HopType : Type 0 where
  user group resource remote_network connector : HopType

pub record TraceHop : Type 0 where
  pub kind : HopType
  pub id : String
  pub name : String
  pub status : String
  pub healthy : Bool

pub record NamedId : Type 0 where
  pub id : String
  pub name : String

pub record MatchedRule : Type 0 where
  pub id : String
  pub name : String
  pub enabled : Bool

pub record AccessTrace : Type 0 where
  pub allowed : Bool
  pub reason : String
  pub path : List TraceHop
  pub user_groups : List NamedId
  pub matched_rules : List MatchedRule
