-- ===== src/Api/Client.antt =====
-- The generic client, web-ui/src/lib/api/client.ts.
use Prim.Native.String
use asset_tracker.Prelude.{
  Option, none, some, List, [], ◌∷◌, String, truthy, if◌then◌else◌, nat_beq,
}
use asset_tracker.Api.Http.{
  Method, get, post, put, delete, Json, Request, Reply, network_failure, response, Fetch,
  fetch_failed, bad_json, api_error, resolved, rejected, auth_logout, Call, is_ok,
}

pub record ApiClientConfig : Type 0 where
  pub base_url : Option String
  pub token : Option String

unfoldable pub get_base_url : Option ApiClientConfig → String
get_base_url none = ""
get_base_url (some c) = elim c.base_url [ none ↦ "" | some u ↦ if truthy u then u else "" ]

unfoldable pub get_token : Option ApiClientConfig → Option String
get_token none = none
get_token (some c) = c.token

-- A `null` result is `none`.
unfoldable pub handle_response : {B : Type 0} → Request → Reply B → Call (Option B) B
handle_response r network_failure = record {
  sent = r;
  dispatched = [];
  settled = rejected fetch_failed;
}
handle_response r (response status body) =
    if nat_beq status 204
    then record { sent = r; dispatched = []; settled = resolved none }
    else elim body [
      | none ↦ record { sent = r; dispatched = []; settled = rejected bad_json }
      | some b ↦
          if is_ok status
          then record { sent = r; dispatched = []; settled = resolved (some b) }
          else record {
            sent = r;
            dispatched = if nat_beq status 401 then auth_logout ∷ [] else [];
            settled = rejected (api_error status b);
          }
    ]

abbrev bearer : Option String → List (String × String)
bearer none = []
bearer (some t) = if truthy t then ("Authorization", String.◌++◌ "Bearer " t) ∷ [] else []

unfoldable pub build_headers : Option ApiClientConfig → List (String × String)
unfolding get_token
build_headers config = ("Content-Type", "application/json") ∷ bearer (get_token config)

-- `createApiClient(config).request`, and the four methods that it returns. A `body` that is
-- `undefined` is `none`.
module _ {B : Type 0} (fetch : Fetch B) (config : Option ApiClientConfig) where
  unfoldable pub request : Method → String → Option Json → Call (Option B) B
  unfolding get_base_url build_headers handle_response
  request method path body =
      let r : Request = record {
        method = method;
        url = String.◌++◌ (get_base_url config) path;
        headers = build_headers config;
        body = body;
      } in
      handle_response r (fetch r)

  unfoldable pub client_get : String → Call (Option B) B
  unfolding request
  client_get path = request get path none

  unfoldable pub client_post : String → Option Json → Call (Option B) B
  unfolding request
  client_post path body = request post path body

  unfoldable pub client_put : String → Option Json → Call (Option B) B
  unfolding request
  client_put path body = request put path body

  unfoldable pub client_delete : String → Call (Option B) B
  unfolding request
  client_delete path = request delete path none
