-- ===== src/Protocol/RoundTrip.antt =====
-- That decoding a frame undoes encoding it.
use stdiod.Base.{ℕ, suc, ◌≤◌, String, ◌≡◌, ◌≢◌, refl, Option, none, some, List, [], ◌∷◌, ok, arith}
use stdiod.Protocol.{
  Os, macos, linux, windows, Json, null, boolean, natural, number, text, array, object, EnvMap,
  DesiredServer, ServerHello, ClientHello, TunnelError, ServerSpecUpdate, TunnelFrame, client_hello,
  server_hello, desired_state_update, mcp_frame, tunnel_error, server_env_update,
  server_spec_update, server_spawn_result, ping, pong,
}
use stdiod.Protocol.Wire.{
  text_items, env_fields, text_or_null, value_or_null, unless_none, os_name, server_json,
  server_items, to_json, get, as_text, as_boolean, as_u32, as_value, as_option, each, as_list,
  each_value, as_env, as_os, server_of, as_server, required, defaulted,
}
use stdiod.Protocol.Decode.{
  from_json, frame_of, client_hello_of, server_hello_of, desired_state_update_of, mcp_frame_of,
  tunnel_error_of, server_env_update_of, server_spec_update_of, server_spawn_result_of, unit_of,
  has_only_tag,
}

-- A version is a `u32`, and the request that an error is about is not the JSON null, which is read as
-- no request.
abbrev pub IsSendable : TunnelFrame → Type 0
IsSendable (client_hello h) = suc h.version ≤ 4294967296
IsSendable (server_hello h) = suc h.version ≤ 4294967296
IsSendable (desired_state_update u) = Unit
IsSendable (mcp_frame f) = Unit
IsSendable (tunnel_error e) = e.related_jsonrpc_id ≢ some null
IsSendable (server_env_update u) = Unit
IsSendable (server_spec_update u) = Unit
IsSendable (server_spawn_result r) = Unit
IsSendable ping = Unit
IsSendable pong = Unit

as_list-text_items : (items : List String) → each as_text (text_items items) ≡ ok items
unfolding each as_text text_items
as_list-text_items [] = refl
as_list-text_items (s ∷ more) = rw (as_list-text_items more) refl

each_value-env_fields : (m : EnvMap) → each_value (env_fields m) ≡ ok m
unfolding each_value env_fields as_text
each_value-env_fields [] = refl
each_value-env_fields ((key, value) ∷ more) = rw (each_value-env_fields more) refl

as_option-text_or_null : (s : Option String) → as_option as_text (text_or_null s) ≡ ok s
unfolding as_option as_text text_or_null
as_option-text_or_null none = refl
as_option-text_or_null (some s) = refl

as_option-value_or_null :
    (v : Option Json) → v ≢ some null → as_option as_value (value_or_null v) ≡ ok v
unfolding as_option value_or_null
as_option-value_or_null none h = refl
as_option-value_or_null (some null) h = absurd (h refl)
as_option-value_or_null (some (boolean b)) h = refl
as_option-value_or_null (some (natural n)) h = refl
as_option-value_or_null (some (number n)) h = refl
as_option-value_or_null (some (text s)) h = refl
as_option-value_or_null (some (array items)) h = refl
as_option-value_or_null (some (object fields)) h = refl

as_os-os_name : (os : Os) → as_os (text (os_name os)) ≡ ok os
unfolding as_os as_text os_name
as_os-os_name macos = refl
as_os-os_name linux = refl
as_os-os_name windows = refl

as_u32-natural : (n : ℕ) → suc n ≤ 4294967296 → as_u32 (natural n) ≡ ok n
unfolding as_u32
as_u32-natural n h = ground arith

as_server-server_json : (s : DesiredServer) → as_server (server_json s) ≡ ok s
unfolding as_server server_json server_of required defaulted get as_text as_list as_env as_boolean
as_server-server_json s =
    rw
      (as_list-text_items s.args, each_value-env_fields s.env, as_option-text_or_null s.working_dir)
      refl

each-server_items :
    (servers : List DesiredServer) → each as_server (server_items servers) ≡ ok servers
unfolding each server_items
each-server_items [] = refl
each-server_items (s ∷ more) = rw (as_server-server_json s, each-server_items more) refl

client_hello_lem :
    (h : ClientHello)
    → IsSendable (client_hello h)
    → from_json (to_json (client_hello h)) ≡ ok (client_hello h)
unfolding from_json to_json frame_of client_hello_of required get as_text as_list
client_hello_lem h small =
    rw (as_u32-natural h.version small, as_os-os_name h.os, as_list-text_items h.currently_running)
      refl

server_hello_lem :
    (h : ServerHello)
    → IsSendable (server_hello h)
    → from_json (to_json (server_hello h)) ≡ ok (server_hello h)
unfolding from_json to_json frame_of server_hello_of required get as_text as_list
server_hello_lem h small = rw (as_u32-natural h.version small, each-server_items h.servers) refl

tunnel_error_lem :
    (e : TunnelError)
    → IsSendable (tunnel_error e)
    → from_json (to_json (tunnel_error e)) ≡ ok (tunnel_error e)
unfolding from_json to_json frame_of tunnel_error_of required defaulted get as_text
tunnel_error_lem e h =
    rw (as_option-text_or_null e.server_id, as_option-value_or_null e.related_jsonrpc_id h) refl

server_spec_update_lem :
    (server_id : String) (env templated_args : Option EnvMap)
    → let u : ServerSpecUpdate = record {
      server_id = server_id;
      env = env;
      templated_args = templated_args;
    } in
      from_json (to_json (server_spec_update u)) ≡ ok (server_spec_update u)
unfolding from_json to_json frame_of server_spec_update_of required defaulted get as_text as_option
    as_env unless_none
server_spec_update_lem server_id none none = refl
server_spec_update_lem server_id none (some t) = rw (each_value-env_fields t) refl
server_spec_update_lem server_id (some m) none = rw (each_value-env_fields m) refl
server_spec_update_lem server_id (some m) (some t) =
    rw (each_value-env_fields m, each_value-env_fields t) refl

-- A frame that was turned into JSON is read back as it was, if its version is a `u32` and the request
-- that an error names is not the JSON null.
pub from_json-to_json : (f : TunnelFrame) → IsSendable f → from_json (to_json f) ≡ ok f
unfolding from_json to_json frame_of desired_state_update_of mcp_frame_of server_env_update_of
    server_spawn_result_of unit_of has_only_tag required defaulted get as_text as_list as_env
    as_boolean
from_json-to_json (client_hello h) small = client_hello_lem h small
from_json-to_json (server_hello h) small = server_hello_lem h small
from_json-to_json (desired_state_update u) h =
    rw (each-server_items u.added, each-server_items u.updated, as_list-text_items u.removed) refl
from_json-to_json (mcp_frame f) h = refl
from_json-to_json (tunnel_error e) h = tunnel_error_lem e h
from_json-to_json (server_env_update u) h = rw (each_value-env_fields u.env) refl
from_json-to_json (server_spec_update u) h =
    server_spec_update_lem u.server_id u.env u.templated_args
from_json-to_json (server_spawn_result r) h = rw (as_option-text_or_null r.error) refl
from_json-to_json ping h = refl
from_json-to_json pong h = refl
