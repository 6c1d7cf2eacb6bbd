-- ===== src/Api/Devices.antt =====
-- The device endpoints of the Go service, web-ui/src/lib/api/devices.ts. `auth_fetch` is given the
-- fields of `options` that its callers set: none of them sets headers.
use Prim.Native.String
use asset_tracker.Prelude.{not, Option, none, some, [], ◌∷◌, ◌++◌, String, if◌then◌else◌, nat_beq}
use asset_tracker.Api.Http.{
  Method, get, post, put, delete, Json, Request, Reply, network_failure, response, Fetch,
  fetch_failed, bad_json, api_error, resolved, rejected, auth_logout, Call, is_ok,
}

-- A `null` result is `none`.
after_fetch : {B : Type 0} → Request → Reply B → Call (Option B) B
after_fetch r network_failure = record {
  sent = r;
  dispatched = [];
  settled = rejected fetch_failed;
}
after_fetch r (response status body) =
    if nat_beq status 204
    then record { sent = r; dispatched = []; settled = resolved none }
    else elim body [
      | none ↦ record { sent = r; dispatched = []; settled = rejected bad_json }
      | some b ↦
          if not (is_ok status)
          then record {
            sent = r;
            dispatched = if nat_beq status 401 then auth_logout ∷ [] else [];
            settled = rejected (api_error status b);
          }
          else record { sent = r; dispatched = []; settled = resolved (some b) }
    ]

unfoldable pub auth_fetch :
    {B : Type 0} → Fetch B → Method → String → Option Json → String → Call (Option B) B
unfolding after_fetch
auth_fetch fetch method url body token =
    let r : Request = record {
      method = method;
      url = url;
      headers =
          ("Content-Type", "application/json")
          ∷ ("Authorization", String.◌++◌ "Bearer " token)
          ∷ [];
      body = body;
    } in
    after_fetch r (fetch r)

-- The bodies of CreateDeviceInput and UpdateDeviceInput.
pub record CreateDeviceInput : Type 0 where
  pub name : String
  pub type : String

pub record UpdateDeviceInput : Type 0 where
  pub name : Option String
  pub type : Option String

-- A field that is `undefined` is not written.
abbrev optional_field : String → Option String → Json
optional_field key none = []
optional_field key (some v) = (key, v) ∷ []

abbrev pub create_json : CreateDeviceInput → Json
create_json input = ("name", input.name) ∷ ("type", input.type) ∷ []

abbrev pub update_json : UpdateDeviceInput → Json
update_json input = optional_field "name" input.name ++ optional_field "type" input.type

module _ {B : Type 0} (fetch : Fetch B) where
  unfoldable pub get_devices : String → Call (Option B) B
  get_devices token = auth_fetch fetch get "/api/go/devices" none token

  unfoldable pub get_device : String → String → Call (Option B) B
  get_device id token = auth_fetch fetch get (String.◌++◌ "/api/go/devices/" id) none token

  unfoldable pub create_device : CreateDeviceInput → String → Call (Option B) B
  create_device input token =
      auth_fetch fetch post "/api/go/devices" (some (create_json input)) token

  unfoldable pub update_device : String → UpdateDeviceInput → String → Call (Option B) B
  update_device id input token =
      auth_fetch fetch put (String.◌++◌ "/api/go/devices/" id) (some (update_json input)) token

  unfoldable pub delete_device : String → String → Call (Option B) B
  delete_device id token = auth_fetch fetch delete (String.◌++◌ "/api/go/devices/" id) none token
