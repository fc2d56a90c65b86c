-- ===== src/Cli/Server/Scope.antt =====
-- Which requests the server commands send, and what a list shows.
use stdiod.Base.{
  String, Bool, true, All, subst, ◌≡◌, refl, sym, ◌∙◌, ap, none, some, List, Result, ok, map_err,
  bind-inv, map_err-inv, ok_inj,
}
use stdiod.Base.Text.{append}
use stdiod.Config.{
  PersistedConfig, Machine, CredentialRef, client_access_token, legacy_api_key, usable_credential,
}
use stdiod.Http.{Request, Response, BackendClient, get_json, post_json, delete, request}
use stdiod.Cli.Server.{
  render, add_for, remove_for, create_request, ServerCommand, add, list, remove, ServerListItem,
  Backend, credential_kind, add_with, list_with, list_for, remove_with, run_command, own_device,
  is_own, sort_by_name, retain, http,
}
use stdiod.Cli.Server.Listing.{
  count, count-retain, count-sort_by_name, IsSorted, sort_by_name-IsSorted, IsOwn, is_own_iff,
  retain-IsOwn, sort_by_name-All,
}

-- A request of the client's own interface, with the client's token.
abbrev pub IsClientRequest : BackendClient → Request → Type 0
IsClientRequest client r =
    (path : String) × (r.url ≡ append client.base (append "/api/v1/client/" path))
    × (r.bearer ≡ some client.token)

-- A backend with another way to send requests.
abbrev pub sending : (Request → Result String Response) → Backend → Backend
sending send backend = record backend { send = send }

module _ (backend : Backend) (machine : Machine) (client : BackendClient) (c : PersistedConfig)
    (credential : CredentialRef) where
  kind_lem :
      usable_credential c ≡ some credential
      → credential.kind ≡ client_access_token
      → credential_kind c ≡ ok client_access_token
  unfolding credential_kind
  kind_lem found client_kind = rw (found, credential_kind) (ap ok client_kind)

  module _ (send : Request → Result String Response) where
    -- With a client credential the server commands depend on no other request than those to the
    -- client's own interface that carry its token: two ways to send requests that agree on these give
    -- the same result.
    pub run_command-IsClientRequest :
        (command : ServerCommand)
        → usable_credential c ≡ some credential
        → credential.kind ≡ client_access_token
        → ((r : Request) → IsClientRequest client r → send r ≡ backend.send r)
        → run_command (sending send backend) machine client command c
          ≡ run_command backend machine client command c
    unfolding run_command add_with list_with list_for remove_with add_for remove_for post_json
        get_json delete append request render
    run_command-IsClientRequest (add args) found kind agrees =
        let ask =
          request backend.send client "POST" "/api/v1/client/mcp-requests"
            (some (create_request args none)) in
        rw (kind_lem found kind, agrees ask ("mcp-requests", refl, refl)) refl
    run_command-IsClientRequest (list json) found kind agrees =
        let ask = request backend.send client "GET" "/api/v1/client/servers" none in
        rw (kind_lem found kind, agrees ask ("servers", refl, refl)) refl
    run_command-IsClientRequest (remove name) found kind agrees =
        let rest = append "mcp-requests/" (backend.encode name) in
        let ask = request backend.send client "DELETE" (append "/api/v1/client/" rest) none in
        rw (kind_lem found kind, agrees ask (rest, refl, refl)) refl

  -- With an API key, a `server list` that succeeds shows a list of servers in the order of their
  -- names, each of which the tunnel runs on this device, and which leaves none of these out: for any
  -- test that only such servers pass, as many servers of the list pass it as of the backend's answer.
  pub list_with-IsSorted :
      (json : Bool) (output : String) (test : ServerListItem → Bool)
      → usable_credential c ≡ some credential
      → credential.kind ≡ legacy_api_key
      → ((item : ServerListItem)
          → test item ≡ true
          → IsOwn (own_device backend machine client c) item)
      → list_with backend machine client json c ≡ ok output
      → (items : List ServerListItem) × (shown : List ServerListItem) × (get_json backend.send
            client backend.decode_list "/api/v1/servers?page=1&per_page=200"
          ≡ ok items)
        × (output ≡ render backend machine client json legacy_api_key c shown)
        × IsSorted shown
        × All (IsOwn (own_device backend machine client c)) shown
        × (count test shown ≡ count test items)
  unfolding list_with list_for credential_kind
  list_with-IsSorted json output test found kind only e =
      let get =
        get_json backend.send client backend.decode_list "/api/v1/servers?page=1&per_page=200" in
      let device = own_device backend machine client c in
      let known : credential_kind c ≡ ok legacy_api_key =
        rw (found, credential_kind) (ap ok kind) in
      let (listed, filtered, rendered) =
        bind-inv (list_for backend machine client legacy_api_key c) _ output (rw known at e) in
      let (items, got, kept) = bind-inv (map_err http get) _ listed filtered in
      let own = retain-IsOwn device items in
      let same : retain (is_own device) items ≡ listed = ok_inj kept in
      (
        items,
        sort_by_name listed,
        map_err-inv http get items got,
        sym (ok_inj rendered),
        sort_by_name-IsSorted listed,
        sort_by_name-All (IsOwn device) listed (subst (All (IsOwn device)) same own),
        count-sort_by_name test listed
            ∙ ap (count test) (sym same)
            ∙ count-retain test (is_own device) items
                (λ item passes. (is_own_iff device item).1 (only item passes)),
      )
