-- ===== src/Hooks/Calls.antt =====
-- What the hooks of web-ui/src/hooks ask of the clients: each query's `queryFn` and each mutation's
-- `mutationFn`, with the keys that its success invalidates.
use asset_tracker.Prelude.{
  ap, ◌≡◌, ◌≢◌, refl, true, Option, none, some, List, String, truthy_iff, or_else, arith,
}
use asset_tracker.Api.Http.{Fetch, Call}
use asset_tracker.Api.Devices.{CreateDeviceInput, UpdateDeviceInput}
use asset_tracker.Api.Events.{CreateEventInput}
use asset_tracker.Api.Laws.{
  Operation, list_devices, list_deleted, read_device, remove_device, list_events, add_device,
  change_device, add_event, perform, Answered, perform-Answers,
}
use asset_tracker.Hooks.{
  Key, QueryOptions, use_devices, use_device, use_events, use_deleted_devices,
  create_device_invalidates, update_device_invalidates, delete_device_invalidates,
  create_event_invalidates,
}

-- The hooks that read with the token of the session.
pub data Reader : Type 0 where
  devices deleted_devices : Reader
  device : (id : String) → Reader
  events : (device_id : Option String) → Reader

unfoldable pub options : Reader → (token : Option String) → QueryOptions
unfolding use_devices use_device use_events use_deleted_devices
options devices token = use_devices token
options deleted_devices token = use_deleted_devices token
options (device id) token = use_device id token
options (events device_id) token = use_events device_id token

-- `token!` in a text, where null is not refused; so too `encodeURIComponent(undefined)`.
abbrev pub asserted : Option String → String
asserted token = or_else token "null"

abbrev pub operation_of : Reader → Operation
operation_of devices = list_devices
operation_of deleted_devices = list_deleted
operation_of (device id) = read_device id
operation_of (events device_id) = list_events (or_else device_id "undefined")

-- The hooks that write.
pub data Writer : Type 0 where
  creates_device : CreateDeviceInput → Writer
  updates_device : (id : String) → UpdateDeviceInput → Writer
  deletes_device : (id : String) → Writer
  creates_event : CreateEventInput → Writer

abbrev pub operation_to : Writer → Operation
operation_to (creates_device input) = add_device input
operation_to (updates_device id input) = change_device id input
operation_to (deletes_device id) = remove_device id
operation_to (creates_event input) = add_event input

-- `onSuccess`
unfoldable pub invalidates : Writer → List Key
unfolding create_device_invalidates update_device_invalidates delete_device_invalidates
    create_event_invalidates
invalidates (creates_device input) = create_device_invalidates
invalidates (updates_device id input) = update_device_invalidates id
invalidates (deletes_device id) = delete_device_invalidates
invalidates (creates_event input) = create_event_invalidates

module _ {B : Type 0} (fetch : Fetch B) (encode : String → String) where
  unfoldable pub query_fn : Reader → (token : Option String) → Call (Option B) B
  unfolding perform
  query_fn q token = perform fetch encode (operation_of q) (asserted token)

  unfoldable pub mutation_fn : Writer → (token : Option String) → Call (Option B) B
  unfolding perform
  mutation_fn m token = perform fetch encode (operation_to m) (asserted token)

  enabled_token :
      (q : Reader) (token : Option String)
      → (options q token).enabled ≡ true
      → (t : String) × (token ≡ some t) × (t ≢ "")
  unfolding options
  enabled_token devices (some t) h = (t, refl, (truthy_iff t).0 h)
  enabled_token deleted_devices (some t) h = (t, refl, (truthy_iff t).0 h)
  enabled_token (device id) (some t) h = (t, refl, (truthy_iff t).0 (ground arith))
  enabled_token (events d) (some t) h = (t, refl, (truthy_iff t).0 (ground arith))
  enabled_token devices none h = absurd (cc)
  enabled_token deleted_devices none h = absurd (cc)
  enabled_token (device id) none h = absurd (ground arith)
  enabled_token (events d) none h = absurd (ground arith)

  -- A query that is enabled asks its own endpoint with the session's token as the bearer, which is
  -- there and not empty, and settles by the reply alone.
  pub query_fn-Answered :
      (q : Reader) (token : Option String)
      → (options q token).enabled ≡ true
      → (t : String) × (token ≡ some t)
        × (t ≢ "")
        × (query_fn q token ≡ perform fetch encode (operation_of q) t)
        × Answered fetch encode (operation_of q) t
  unfolding query_fn
  query_fn-Answered q token h =
      let (t, there, full) = enabled_token q token h in
      (
        t,
        there,
        full,
        ap (λ x. perform fetch encode (operation_of q) (asserted x)) there,
        perform-Answers fetch encode (operation_of q) t,
      )
