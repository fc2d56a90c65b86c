-- ===== src/Protocol/Wire.antt =====
-- crates/edison-tunnel-protocol/src/lib.rs: `to_json` and `from_json`, as the attributes of the types
-- define them. The fields of an object have distinct names; their order does not matter.
use stdiod.Base.{
  ℕ, String, Bool, Option, none, some, List, [], ◌∷◌, Result, ok, err, or_fail, ◌>>=◌,
  if◌then◌else◌, ltb, ◌==◌,
}
use stdiod.Protocol.{
  Os, macos, linux, windows, Json, null, boolean, natural, text, array, object, Items, nil, cons,
  Fields, end, field, EnvMap, DesiredServer, TunnelFrame, client_hello, server_hello,
  desired_state_update, mcp_frame, tunnel_error, server_env_update, server_spec_update,
  server_spawn_result, ping, pong,
}

pub data JsonError : Type 0 where
  missing_field unknown_variant : String → JsonError
  invalid_type : JsonError

-- The JSON of the parts.
unfoldable pub text_items : List String → Items
text_items [] = nil
text_items (s ∷ more) = cons (text s) (text_items more)

unfoldable pub env_fields : EnvMap → Fields
env_fields [] = end
env_fields ((key, value) ∷ more) = field key (text value) (env_fields more)

unfoldable pub text_or_null : Option String → Json
text_or_null none = null
text_or_null (some s) = text s

unfoldable pub value_or_null : Option Json → Json
value_or_null none = null
value_or_null (some j) = j

-- `skip_serializing_if = "Option::is_none"`
unfoldable pub unless_none : String → Option EnvMap → Fields → Fields
unless_none key none rest = rest
unless_none key (some m) rest = field key (object (env_fields m)) rest

unfoldable pub os_name : Os → String
os_name macos = "macos"
os_name linux = "linux"
os_name windows = "windows"

unfoldable pub server_json : DesiredServer → Json
server_json s = object (
    field "server_id" (text s.server_id) (
      field "name" (text s.name) (
        field "command" (text s.command) (
          field "args" (array (text_items s.args)) (
            field "env" (object (env_fields s.env)) (
              field "working_dir" (text_or_null s.working_dir)
                (field "enabled" (boolean s.enabled) end)))))))

unfoldable pub server_items : List DesiredServer → Items
server_items [] = nil
server_items (s ∷ more) = cons (server_json s) (server_items more)

-- `#[serde(tag = "type")]`
abbrev pub tagged : String → Fields → Json
tagged name fields = object (field "type" (text name) fields)

unfoldable pub to_json : TunnelFrame → Json
to_json (client_hello h) = tagged "client_hello" (
    field "protocol_version" (natural h.version) (
      field "device_id" (text h.device_id) (
        field "hostname" (text h.hostname) (
          field "label" (text h.label) (
            field "os" (text (os_name h.os)) (
              field "client_version" (text h.client_version)
                (field "currently_running" (array (text_items h.currently_running)) end)))))))
to_json (server_hello h) = tagged "server_hello" (
    field "protocol_version" (natural h.version)
      (field "servers" (array (server_items h.servers)) end))
to_json (desired_state_update u) = tagged "desired_state_update" (
    field "added" (array (server_items u.added)) (
      field "updated" (array (server_items u.updated))
        (field "removed" (array (text_items u.removed)) end)))
to_json (mcp_frame f) =
    tagged "mcp_frame" (field "server_id" (text f.server_id) (field "frame" f.frame end))
to_json (tunnel_error e) = tagged "tunnel_error" (
    field "server_id" (text_or_null e.server_id) (
      field "related_jsonrpc_id" (value_or_null e.related_jsonrpc_id)
        (field "code" (text e.error_code) (field "message" (text e.message) end))))
to_json (server_env_update u) =
    tagged "server_env_update"
      (field "server_id" (text u.server_id) (field "env" (object (env_fields u.env)) end))
to_json (server_spec_update u) = tagged "server_spec_update" (
    field "server_id" (text u.server_id)
      (unless_none "env" u.env (unless_none "templated_args" u.templated_args end)))
to_json (server_spawn_result r) = tagged "server_spawn_result" (
    field "server_id" (text r.server_id)
      (field "ok" (boolean r.success) (field "error" (text_or_null r.error) end)))
to_json ping = tagged "ping" end
to_json pong = tagged "pong" end

-- The value of a field.
unfoldable pub get : String → Fields → Option Json
get key end = none
get key (field name value rest) = if name == key then some value else get key rest

abbrev pub Decoder : Type 0 → Type 0
Decoder A = Json → Result JsonError A

unfoldable pub as_text : Decoder String
as_text (text s) = ok s
as_text j = err invalid_type

unfoldable pub as_boolean : Decoder Bool
as_boolean (boolean b) = ok b
as_boolean j = err invalid_type

-- A `u32`.
unfoldable pub as_u32 : Decoder ℕ
as_u32 (natural n) = if ltb n 4294967296 then ok n else err invalid_type
as_u32 j = err invalid_type

abbrev pub as_value : Decoder Json
as_value j = ok j

-- `Option<T>`
unfoldable pub as_option : {A : Type 0} → Decoder A → Decoder (Option A)
as_option decode null = ok none
as_option decode j = decode j >>= λ a. ok (some a)

unfoldable pub each : {A : Type 0} → Decoder A → Items → Result JsonError (List A)
each decode nil = ok []
each decode (cons j more) = decode j >>= λ a. each decode more >>= λ rest. ok (a ∷ rest)

-- `Vec<T>`
unfoldable pub as_list : {A : Type 0} → Decoder A → Decoder (List A)
as_list decode (array items) = each decode items
as_list decode j = err invalid_type

unfoldable pub each_value : Fields → Result JsonError EnvMap
each_value end = ok []
each_value (field key j more) =
    as_text j >>= λ value. each_value more >>= λ rest. ok ((key, value) ∷ rest)

-- `BTreeMap<String, String>`
unfoldable pub as_env : Decoder EnvMap
as_env (object fields) = each_value fields
as_env j = err invalid_type

unfoldable pub required : {A : Type 0} → String → Decoder A → Fields → Result JsonError A
required key decode fields = or_fail (get key fields) (missing_field key) >>= decode

-- `#[serde(default)]`
unfoldable pub defaulted : {A : Type 0} → A → String → Decoder A → Fields → Result JsonError A
defaulted otherwise key decode fields = elim (get key fields) [
  | none ↦ ok otherwise
  | some j ↦ decode j
]

unfoldable pub as_os : Decoder Os
as_os j = as_text j >>= λ name.
    if name == "macos"
    then ok macos
    else if name == "linux"
    then ok linux
    else if name == "windows"
    then ok windows
    else err (unknown_variant name)

unfoldable pub server_of : Fields → Result JsonError DesiredServer
server_of fields = do
  server_id ← required "server_id" as_text fields
  name ← required "name" as_text fields
  command ← required "command" as_text fields
  args ← defaulted [] "args" (as_list as_text) fields
  env ← defaulted [] "env" as_env fields
  working_dir ← defaulted none "working_dir" (as_option as_text) fields
  enabled ← required "enabled" as_boolean fields
  ok (record {
    server_id = server_id;
    name = name;
    command = command;
    args = args;
    env = env;
    working_dir = working_dir;
    enabled = enabled;
  })

unfoldable pub as_server : Decoder DesiredServer
as_server (object fields) = server_of fields
as_server j = err invalid_type
