-- ===== src/Api/Laws.antt =====
-- The authorised calls of devices.ts and events.ts, taken together: what they send, how they
-- settle, and when they announce a logout. And the generic client of client.ts against them.
use Prim.Native.String
use native.Mathlib.Decide.{ℕ_discrete}
use asset_tracker.Prelude.{
  ℕ, inl, inr, Bool-cases, ◌≤◌, ◌≡◌, refl, ◌≢◌, Option, none, some, List, [], ◌∷◌, String, arith,
  eq_iff,
}
use asset_tracker.Api.Http.{
  Reply-cases, is_ok, Method, get, post, put, delete, Json, Request, Reply, network_failure,
  response, Fetch, fetch_failed, bad_json, api_error, Settled, resolved, rejected, WindowEvent,
  auth_logout, Call,
}
use asset_tracker.Api.Client.{ApiClientConfig, request, get_base_url}
use asset_tracker.Api.Devices
use asset_tracker.Api.Devices.{
  CreateDeviceInput, UpdateDeviceInput, get_devices, get_device, create_device, update_device,
  delete_device, create_json, update_json,
}
use asset_tracker.Api.Events
use asset_tracker.Api.Events.{
  CreateEventInput, event_json, get_events, create_event, get_deleted_devices,
}

-- The exported functions that take a token.
pub data Operation : Type 0 where
  list_devices list_deleted : Operation
  read_device remove_device list_events : (id : String) → Operation
  add_device : CreateDeviceInput → Operation
  change_device : (id : String) → UpdateDeviceInput → Operation
  add_event : CreateEventInput → Operation

-- How a call settles and what it dispatches, by the reply alone.
pub data Answers {B : Type 0} (reply : Reply B) (st : Settled (Option B) B) (ev : List WindowEvent)
    : Type 0 where
  lost : reply ≡ network_failure → st ≡ rejected fetch_failed → ev ≡ [] → Answers reply st ev
  no_content :
      (body : Option B)
      → reply ≡ response 204 body
      → st ≡ resolved none
      → ev ≡ []
      → Answers reply st ev
  unreadable :
      (k : ℕ)
      → k ≢ 204
      → reply ≡ response k none
      → st ≡ rejected bad_json
      → ev ≡ []
      → Answers reply st ev
  answered :
      (k : ℕ) (b : B)
      → k ≢ 204
      → 200 ≤ k
      → k ≤ 299
      → reply ≡ response k (some b)
      → st ≡ resolved (some b)
      → ev ≡ []
      → Answers reply st ev
  unauthorised :
      (b : B)
      → reply ≡ response 401 (some b)
      → st ≡ rejected (api_error 401 b)
      → ev ≡ auth_logout ∷ []
      → Answers reply st ev
  refused :
      (k : ℕ) (b : B)
      → ¬ ((200 ≤ k) × (k ≤ 299))
      → k ≢ 401
      → reply ≡ response k (some b)
      → st ≡ rejected (api_error k b)
      → ev ≡ []
      → Answers reply st ev

module _ {B : Type 0} (fetch : Fetch B) where
  -- The request that `auth_fetch` sends.
  abbrev pub authorised : Method → String → Option Json → String → Request
  authorised m url body t = record {
    method = m;
    url = url;
    headers =
        ("Content-Type", "application/json") ∷ ("Authorization", String.◌++◌ "Bearer " t) ∷ [];
    body = body;
  }

  auth_fetch-Events :
      (m : Method) (url : String) (body : Option Json) (t : String)
      → Events.auth_fetch fetch m url body t ≡ Devices.auth_fetch fetch m url body t
  unfolding Devices.auth_fetch Events.auth_fetch
  auth_fetch-Events m url body t = refl

  abbrev configured : String → String → Option ApiClientConfig
  configured base t = some (record { base_url = some base; token = some t })

  -- For a token that is not empty, the generic client of client.ts, and the two copies of
  -- `authFetch` in devices.ts and events.ts, are the same function of the method, the whole URL,
  -- the body and the token.
  request-auth_fetch :
      (base path t : String) (m : Method) (body : Option Json)
      → t ≢ ""
      → let url = String.◌++◌ (get_base_url (configured base t)) path in
        (request fetch (configured base t) m path body ≡ Devices.auth_fetch fetch m url body t)
        × (request fetch (configured base t) m path body ≡ Events.auth_fetch fetch m url body t)
  unfolding request Devices.auth_fetch Events.auth_fetch
  request-auth_fetch base path t m body h = ground (arith, eq_iff t "")

  auth_fetch-Answers :
      (m : Method) (url : String) (body : Option Json) (t : String)
      → let c = Devices.auth_fetch fetch m url body t in
        (c.sent ≡ authorised m url body t)
        × Answers (fetch (authorised m url body t)) c.settled c.dispatched
  unfolding Devices.auth_fetch
  auth_fetch-Answers m url body t = elim (Reply-cases (fetch (authorised m url body t))) [
    | inl (inl e) ↦ (ground arith, lost e (ground arith) (ground arith))
    | inl (inr (k, e)) ↦ elim (ℕ_discrete k 204) [
      | yes z ↦ (ground arith, no_content none (cc) (ground arith) (ground arith))
      | no n ↦ (ground arith, unreadable k n e (ground arith) (ground arith))
    ]
    | inr (k, b, e) ↦ elim (ℕ_discrete k 204) [
      | yes z ↦ (ground arith, no_content (some b) (cc) (ground arith) (ground arith))
      | no n ↦ elim (Bool-cases (is_ok k)) [
        | inl fine ↦ (
          ground arith,
          answered k b n (ground arith) (ground arith) e (ground arith) (ground arith),
        )
        | inr bad ↦ elim (ℕ_discrete k 401) [
          | yes z ↦ (ground arith, unauthorised b (cc) (ground arith) (ground arith))
          | no other ↦ (
            ground arith,
            refused k b (λ (low, high). ground arith) other e (ground arith) (ground arith),
          )
        ]
      ]
    ]
  ]

-- The endpoint of each operation.
abbrev method_of : Operation → Method
method_of (remove_device id) = delete
method_of (add_device input) = post
method_of (change_device id input) = put
method_of (add_event input) = post
method_of _ = get

abbrev url_of : (String → String) → Operation → String
url_of encode list_devices = "/api/go/devices"
url_of encode list_deleted = "/api/node/events?type=device.deleted"
url_of encode (read_device id) = String.◌++◌ "/api/go/devices/" id
url_of encode (remove_device id) = String.◌++◌ "/api/go/devices/" id
url_of encode (list_events id) = String.◌++◌ "/api/node/events?deviceId=" (encode id)
url_of encode (add_device input) = "/api/go/devices"
url_of encode (change_device id input) = String.◌++◌ "/api/go/devices/" id
url_of encode (add_event input) = "/api/node/events"

abbrev body_of : Operation → Option Json
body_of (add_device input) = some (create_json input)
body_of (change_device id input) = some (update_json input)
body_of (add_event input) = some (event_json input)
body_of _ = none

module _ {B : Type 0} (fetch : Fetch B) (encode : String → String) where
  unfoldable pub perform : Operation → String → Call (Option B) B
  perform list_devices t = get_devices fetch t
  perform list_deleted t = get_deleted_devices fetch t
  perform (read_device id) t = get_device fetch id t
  perform (remove_device id) t = delete_device fetch id t
  perform (list_events id) t = get_events fetch encode id t
  perform (add_device input) t = create_device fetch input t
  perform (change_device id input) t = update_device fetch id input t
  perform (add_event input) t = create_event fetch input t

  abbrev pub Answered : Operation → String → Type 0
  Answered op t =
      let c = perform op t in
      (c.sent ≡ authorised fetch (method_of op) (url_of encode op) (body_of op) t)
      × Answers (fetch c.sent) c.settled c.dispatched

  via_devices :
      (m : Method) (url : String) (body : Option Json) (t : String)
      → let c = Devices.auth_fetch fetch m url body t in
        (c.sent ≡ authorised fetch m url body t) × Answers (fetch c.sent) c.settled c.dispatched
  via_devices m url body t = let (e, a) = auth_fetch-Answers fetch m url body t in (e, rw e a)

  via_events :
      (m : Method) (url : String) (body : Option Json) (t : String)
      → let c = Events.auth_fetch fetch m url body t in
        (c.sent ≡ authorised fetch m url body t) × Answers (fetch c.sent) c.settled c.dispatched
  via_events m url body t = rw (auth_fetch-Events fetch m url body t) (via_devices m url body t)

  -- Every operation that takes a token sends one request, to its endpoint and with the token as
  -- its bearer. A reply with status 204 settles as null, another reply with a status from 200 to
  -- 299 as its body, any other as the error with its status and body; a reply that is lost or
  -- whose body cannot be read rejects. A logout is dispatched if and only if a body is read and
  -- the status is 401.
  pub perform-Answers : (op : Operation) (t : String) → Answered op t
  unfolding perform get_devices get_device create_device update_device delete_device get_events
      create_event get_deleted_devices
  perform-Answers list_devices t = via_devices get "/api/go/devices" none t
  perform-Answers list_deleted t = via_events get "/api/node/events?type=device.deleted" none t
  perform-Answers (read_device id) t = via_devices get _ none t
  perform-Answers (remove_device id) t = via_devices delete _ none t
  perform-Answers (list_events id) t = via_events get _ none t
  perform-Answers (add_device input) t = via_devices post _ _ t
  perform-Answers (change_device id input) t = via_devices put _ _ t
  perform-Answers (add_event input) t = via_events post _ _ t
