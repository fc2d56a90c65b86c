-- ===== src/Cli/Server.antt =====
-- crates/edison-stdiod/src/cli/server.rs: the commands `server add`, `list` and `remove`, over the client
-- of Http. Decoding a body, printing JSON and encoding a name for a URL are arguments.
mod Table
pub mod Listing
pub mod Scope
pub mod Tests
unfoldable pub use Table.*
use Prim.Native.Char.{code}
use stdiod.Base.{
  ℕ, zero, suc, ◌-◌, String, Bool, true, false, ◌&&◌, not, Option, none, some, is_some, List, [],
  ◌∷◌, value_or, Result, ok, err, or_fail, require, map_err, ◌>>=◌, ◌>>◌, if◌then◌else◌, eqb, ltb,
  leb, same_text?,
}
use stdiod.Base.Text.{append, chars, trim_end}
use stdiod.Base.Text.Decimal.{decimal}
use stdiod.Protocol.{
  Json, null, boolean, natural, text, array, object, Items, nil, cons, Fields, end, field,
}
use stdiod.Protocol.Wire.{text_items, text_or_null}
use stdiod.Config.{
  CredentialKind, client_access_token, legacy_api_key, PersistedConfig, Machine, FileRead,
  usable_credential, hostname, load_from,
}
use stdiod.Config.Backend.{Url}
use stdiod.Http.{
  HttpError, Request, Response, BackendClient, get_json, post_json, delete, from_config,
}

pub record AddArgs : Type 0 where
  pub name : String
  pub command : String
  pub args : List String
  pub working_dir : Option String
  pub display_name : Option String

pub data ServerCommand : Type 0 where
  add : AddArgs → ServerCommand
  list : (json : Bool) → ServerCommand
  remove : (name : String) → ServerCommand

pub data ServerError : Type 0 where
  failed : String → ServerError
  http : HttpError → ServerError

pub record ClientCreateRequestResponse : Type 0 where
  pub request_id : ℕ
  pub auto_approved : Bool

unfoldable pub credential_kind : PersistedConfig → Result ServerError CredentialKind
credential_kind c = elim (usable_credential c) [
  | none ↦ err (failed "no credential on disk. Run `edison-stdiod login --backend ...`.")
  | some credential ↦ ok credential.kind
]

-- The JSON of a `ClientCreateRequestBody`; the host name is skipped when there is none.
unfoldable pub create_request : AddArgs → Option String → Json
create_request args hostname = object (
    field "name" (text args.name) (
      field "display_name" (text_or_null args.display_name) (
        field "command" (text args.command)
          (field "args" (array (text_items args.args)) (named hostname)))))
  where
    named : Option String → Fields
    named none = end
    named (some h) = field "hostname" (text h) end

unfoldable pub format_create_result : String → ClientCreateRequestResponse → String
format_create_result name response =
    if response.auto_approved
    then append "Request '" (
        append name (
          append "' was auto-approved (request ID " (
            append (decimal response.request_id)
              "). Run `edison-stdiod status` to confirm it has spawned.")))
    else append "Submitted request '" (
        append name
          (append "' for approval (request ID " (append (decimal response.request_id) ").")))

-- What the commands call.
pub record Backend : Type 0 where
  pub send : Request → Result String Response
  pub decode_created : String → Result String ClientCreateRequestResponse
  pub decode_list : String → Result String (List ServerListItem)
  pub pretty : Json → String
  pub encode : String → String

module _ (backend : Backend) (machine : Machine) (client : BackendClient) where
  add_for : CredentialKind → AddArgs → Result ServerError ClientCreateRequestResponse
  add_for client_access_token args = map_err http (
      post_json backend.send client backend.decode_created "/api/v1/client/mcp-requests"
        (create_request args none))
  add_for legacy_api_key args = map_err http (
      post_json backend.send client backend.decode_created "/api/v1/mcp-requests"
        (create_request args (some (hostname machine))))

  unfoldable pub add_with : AddArgs → PersistedConfig → Result ServerError String
  unfolding add_for
  add_with args c = do
    require (not (is_some args.working_dir)) (
        failed
          "--working-dir is not supported because MCP requests cannot persist it; omit the option or configure it through the dashboard")
    kind ← credential_kind c
    response ← add_for kind args
    ok (format_create_result args.name response)

  -- The device whose servers a legacy key lists.
  unfoldable pub own_device : PersistedConfig → String
  own_device c = value_or c.device_id (hostname machine)

  unfoldable pub list_for :
      CredentialKind → PersistedConfig → Result ServerError (List ServerListItem)
  list_for client_access_token c =
      map_err http (get_json backend.send client backend.decode_list "/api/v1/client/servers")
  list_for legacy_api_key c =
      map_err http
        (get_json backend.send client backend.decode_list "/api/v1/servers?page=1&per_page=200")
      >>= λ items. ok (retain (is_own (own_device c)) items)

  nothing_listed : CredentialKind → PersistedConfig → String
  nothing_listed client_access_token c =
      "No approved stdio_tunnel servers registered for this client device."
  nothing_listed legacy_api_key c =
      append "No stdio_tunnel servers registered for device " (append (own_device c) ".")

  -- The output for the sorted items.
  unfoldable pub render : Bool → CredentialKind → PersistedConfig → List ServerListItem → String
  unfolding nothing_listed
  render json kind c items = if json then backend.pretty (array (items_json items)) else shown items
    where
      shown : List ServerListItem → String
      shown [] = nothing_listed kind c
      shown (item ∷ rest) = table (item ∷ rest)

  unfoldable pub list_with : Bool → PersistedConfig → Result ServerError String
  list_with json c = do
    kind ← credential_kind c
    items ← list_for kind c
    ok (render json kind c (sort_by_name items))

  remove_for : CredentialKind → String → Result ServerError String
  remove_for client_access_token name =
      map_err http
        (delete backend.send client (append "/api/v1/client/mcp-requests/" (backend.encode name)))
      >>= λ removed. ok (
          if removed
          then append "Withdrew pending request '" (append name "'.")
          else append "No pending request named '"
              (append name "'. Approved server removal requires dashboard/admin action."))
  remove_for legacy_api_key name =
      map_err http (delete backend.send client (append "/api/v1/servers/" (backend.encode name)))
      >>= λ removed. ok (
          if removed
          then append "Removed " name
          else append "No server named '" (append name "' (already absent)."))

  unfoldable pub remove_with : String → PersistedConfig → Result ServerError String
  unfolding remove_for
  remove_with name c = credential_kind c >>= λ kind. remove_for kind name

  unfoldable pub run_command : ServerCommand → PersistedConfig → Result ServerError String
  run_command (add args) c = add_with args c
  run_command (list json) c = list_with json c
  run_command (remove name) c = remove_with name c

-- `run`, from the configuration file to the text that it prints.
unfoldable pub run :
    (String → Option Url)
    → Backend
    → Machine
    → String
    → FileRead
    → ServerCommand
    → Result ServerError String
run parse backend machine path file command = do
  c ← map_err failed (load_from path file)
  client ← map_err failed (from_config parse c)
  run_command backend machine client command c
