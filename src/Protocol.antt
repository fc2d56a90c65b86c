-- ===== src/Protocol.antt =====
-- The frames of crates/edison-tunnel-protocol/src/lib.rs. A `BTreeMap` is an association list in
-- key order; a JSON body is a value that the transport passes on unread.
pub mod Wire
pub mod Decode
pub mod RoundTrip
pub mod Tests
use stdiod.Base.{ℕ, String, Bool, List, Option, String-discrete}

abbrev pub protocol_version : ℕ
protocol_version = 2

pub data Os : Type 0 where
  macos linux windows : Os

-- `serde_json::Value`; a number that is no natural one is kept as its text.
mutual
  pub data Json : Type 0 where
    null : Json
    boolean : Bool → Json
    natural : ℕ → Json
    number : String → Json
    text : String → Json
    array : Items → Json
    object : Fields → Json

  pub data Items : Type 0 where
    nil : Items
    cons : Json → Items → Items

  pub data Fields : Type 0 where
    end : Fields
    field : String → Json → Fields → Fields

abbrev pub EnvMap : Type 0
EnvMap = List (String × String)

pub record ClientHello : Type 0 where
  pub version : ℕ
  pub device_id : String
  pub hostname : String
  pub label : String
  pub os : Os
  pub client_version : String
  pub currently_running : List String

pub record DesiredServer : Type 0 where
  pub server_id : String
  pub name : String
  pub command : String
  pub args : List String
  pub env : EnvMap
  pub working_dir : Option String
  pub enabled : Bool

pub record ServerHello : Type 0 where
  pub version : ℕ
  pub servers : List DesiredServer

pub record DesiredStateUpdate : Type 0 where
  pub added : List DesiredServer
  pub updated : List DesiredServer
  pub removed : List String

pub record McpFrame : Type 0 where
  pub server_id : String
  pub frame : Json

pub record ServerSpawnResult : Type 0 where
  pub server_id : String
  pub success : Bool
  pub error : Option String

pub record ServerEnvUpdate : Type 0 where
  pub server_id : String
  pub env : EnvMap

pub record ServerSpecUpdate : Type 0 where
  pub server_id : String
  pub env : Option EnvMap
  pub templated_args : Option EnvMap

pub record TunnelError : Type 0 where
  pub server_id : Option String
  pub related_jsonrpc_id : Option Json
  pub error_code : String
  pub message : String

pub data TunnelFrame : Type 0 where
  client_hello : ClientHello → TunnelFrame
  server_hello : ServerHello → TunnelFrame
  desired_state_update : DesiredStateUpdate → TunnelFrame
  mcp_frame : McpFrame → TunnelFrame
  tunnel_error : TunnelError → TunnelFrame
  server_env_update : ServerEnvUpdate → TunnelFrame
  server_spec_update : ServerSpecUpdate → TunnelFrame
  server_spawn_result : ServerSpawnResult → TunnelFrame
  ping pong : TunnelFrame

-- The derived `PartialEq` of `DesiredServer`.
pub DesiredServer-discrete : Discrete DesiredServer
DesiredServer-discrete = hlevel (String-discrete)
