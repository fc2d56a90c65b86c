-- ===== src/Protocol/Decode.antt =====
-- crates/edison-tunnel-protocol/src/lib.rs: `from_json`, frame by frame. An array in place of an object,
-- which the derived code takes too, is left out.
use stdiod.Base.{String, Bool, true, ◌&&◌, none, [], Result, ok, err, ◌>>=◌, if◌then◌else◌, ◌==◌}
use stdiod.Protocol.{
  Json, object, Fields, end, field, TunnelFrame, client_hello, server_hello, desired_state_update,
  mcp_frame, tunnel_error, server_env_update, server_spec_update, server_spawn_result, ping, pong,
}
use stdiod.Protocol.Wire.{
  JsonError, unknown_variant, invalid_type, as_text, as_boolean, as_u32, as_value, as_option,
  as_list, as_env, as_os, as_server, required, defaulted,
}

abbrev FrameOf : Type 0
FrameOf = Fields → Result JsonError TunnelFrame

unfoldable pub client_hello_of : FrameOf
client_hello_of fields = do
  version ← required "protocol_version" as_u32 fields
  device_id ← required "device_id" as_text fields
  hostname ← required "hostname" as_text fields
  label ← required "label" as_text fields
  os ← required "os" as_os fields
  client_version ← required "client_version" as_text fields
  currently_running ← required "currently_running" (as_list as_text) fields
  ok (
      client_hello (record {
        version = version;
        device_id = device_id;
        hostname = hostname;
        label = label;
        os = os;
        client_version = client_version;
        currently_running = currently_running;
      }))

unfoldable pub server_hello_of : FrameOf
server_hello_of fields = do
  version ← required "protocol_version" as_u32 fields
  servers ← required "servers" (as_list as_server) fields
  ok (server_hello (record { version = version; servers = servers }))

unfoldable pub desired_state_update_of : FrameOf
desired_state_update_of fields = do
  added ← defaulted [] "added" (as_list as_server) fields
  updated ← defaulted [] "updated" (as_list as_server) fields
  removed ← defaulted [] "removed" (as_list as_text) fields
  ok (desired_state_update (record { added = added; updated = updated; removed = removed }))

unfoldable pub mcp_frame_of : FrameOf
mcp_frame_of fields = do
  server_id ← required "server_id" as_text fields
  frame ← required "frame" as_value fields
  ok (mcp_frame (record { server_id = server_id; frame = frame }))

unfoldable pub tunnel_error_of : FrameOf
tunnel_error_of fields = do
  server_id ← defaulted none "server_id" (as_option as_text) fields
  related ← defaulted none "related_jsonrpc_id" (as_option as_value) fields
  error_code ← required "code" as_text fields
  message ← required "message" as_text fields
  ok (
      tunnel_error (record {
        server_id = server_id;
        related_jsonrpc_id = related;
        error_code = error_code;
        message = message;
      }))

unfoldable pub server_env_update_of : FrameOf
server_env_update_of fields = do
  server_id ← required "server_id" as_text fields
  env ← defaulted [] "env" as_env fields
  ok (server_env_update (record { server_id = server_id; env = env }))

unfoldable pub server_spec_update_of : FrameOf
server_spec_update_of fields = do
  server_id ← required "server_id" as_text fields
  env ← defaulted none "env" (as_option as_env) fields
  templated_args ← defaulted none "templated_args" (as_option as_env) fields
  ok (
      server_spec_update
        (record { server_id = server_id; env = env; templated_args = templated_args }))

unfoldable pub server_spawn_result_of : FrameOf
server_spawn_result_of fields = do
  server_id ← required "server_id" as_text fields
  success ← required "ok" as_boolean fields
  error ← defaulted none "error" (as_option as_text) fields
  ok (server_spawn_result (record { server_id = server_id; success = success; error = error }))

-- A unit struct takes no field besides the tag.
unfoldable pub has_only_tag : Fields → Bool
has_only_tag end = true
has_only_tag (field name value rest) = name == "type" && has_only_tag rest

unfoldable pub unit_of : TunnelFrame → FrameOf
unit_of frame fields = if has_only_tag fields then ok frame else err invalid_type

unfoldable pub frame_of : String → FrameOf
frame_of name fields =
    if name == "client_hello"
    then client_hello_of fields
    else if name == "server_hello"
    then server_hello_of fields
    else if name == "desired_state_update"
    then desired_state_update_of fields
    else if name == "mcp_frame"
    then mcp_frame_of fields
    else if name == "tunnel_error"
    then tunnel_error_of fields
    else if name == "server_env_update"
    then server_env_update_of fields
    else if name == "server_spec_update"
    then server_spec_update_of fields
    else if name == "server_spawn_result"
    then server_spawn_result_of fields
    else if name == "ping"
    then unit_of ping fields
    else if name == "pong"
    then unit_of pong fields
    else err (unknown_variant name)

unfoldable pub from_json : Json → Result JsonError TunnelFrame
from_json (object fields) = required "type" as_text fields >>= λ name. frame_of name fields
from_json j = err invalid_type
