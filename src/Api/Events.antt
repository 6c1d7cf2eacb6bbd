-- ===== src/Api/Events.antt =====
-- The event endpoints of the Node service, web-ui/src/lib/api/events.ts. `auth_fetch` is given the
-- fields of `options` that its callers set: none of them sets headers. `encode` is
-- `encodeURIComponent`.
use Prim.Native.String
use asset_tracker.Prelude.{not, Option, none, some, [], ◌∷◌, ◌++◌, String, if◌then◌else◌, nat_beq}
use asset_tracker.Api.Http.{
  Method, get, post, Json, Request, Reply, network_failure, response, Fetch, fetch_failed, bad_json,
  api_error, resolved, rejected, auth_logout, Call, is_ok,
}

-- A `null` result is `none`.
after_fetch : {B : Type 0} → Request → Reply B → Call (Option B) B
after_fetch r network_failure = record {
  sent = r;
  dispatched = [];
  settled = rejected fetch_failed;
}
after_fetch r (response status body) =
    if nat_beq status 204
    then record { sent = r; dispatched = []; settled = resolved none }
    else elim body [
      | none ↦ record { sent = r; dispatched = []; settled = rejected bad_json }
      | some b ↦
          if not (is_ok status)
          then record {
            sent = r;
            dispatched = if nat_beq status 401 then auth_logout ∷ [] else [];
            settled = rejected (api_error status b);
          }
          else record { sent = r; dispatched = []; settled = resolved (some b) }
    ]

unfoldable pub auth_fetch :
    {B : Type 0} → Fetch B → Method → String → Option Json → String → Call (Option B) B
unfolding after_fetch
auth_fetch fetch method url body token =
    let r : Request = record {
      method = method;
      url = url;
      headers =
          ("Content-Type", "application/json")
          ∷ ("Authorization", String.◌++◌ "Bearer " token)
          ∷ [];
      body = body;
    } in
    after_fetch r (fetch r)

-- The body of CreateEventInput.
pub record CreateEventInput : Type 0 where
  pub type : String
  pub device_id : String
  pub name : String
  pub actor : Option String
  pub description : Option String

-- A field that is `undefined` is not written.
abbrev optional_field : String → Option String → Json
optional_field key none = []
optional_field key (some v) = (key, v) ∷ []

abbrev pub event_json : CreateEventInput → Json
event_json input =
    ("type", input.type)
    ∷ ("deviceId", input.device_id)
    ∷ ("name", input.name)
    ∷ (optional_field "actor" input.actor ++ optional_field "description" input.description)

module _ {B : Type 0} (fetch : Fetch B) where
  unfoldable pub get_events : (String → String) → String → String → Call (Option B) B
  get_events encode device_id token =
      auth_fetch fetch get (String.◌++◌ "/api/node/events?deviceId=" (encode device_id)) none token

  unfoldable pub create_event : CreateEventInput → String → Call (Option B) B
  create_event input token =
      auth_fetch fetch post "/api/node/events" (some (event_json input)) token

  unfoldable pub get_deleted_devices : String → Call (Option B) B
  get_deleted_devices token = auth_fetch fetch get "/api/node/events?type=device.deleted" none token
