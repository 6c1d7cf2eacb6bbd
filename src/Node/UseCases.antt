-- ===== src/Node/UseCases.antt =====
-- The use cases, node-service/src/application/log-event.js and list-events.js, over a repository.
use asset_tracker.Prelude.{Bool, true, false, not, Option, none, some, List, String, if◌then◌else◌}
use asset_tracker.Node.Value.{Value, undefined, null, text, property, is_filled}
use asset_tracker.Node.Uuid.{is_uuid}
use asset_tracker.Node.Event.{Params, Event, Created, created, validation_error, create_event}
use asset_tracker.Node.Repository.{EventRepository}

-- How the promise of a use case settles: it resolves, or rejects with a ValidationError or with
-- any other error.
pub data Result (A : Type 0) : Type 0 where
  returned : A → Result A
  invalid : (message : String) → Result A
  failed : Result A

-- `{ type, deviceId, name, timestamp, actor, description }` of an argument; `none` where the
-- argument is undefined or null, which throws.
unfoldable pub params_of : Value → Option Params
params_of undefined = none
params_of null = none
params_of v = some (record {
  type = property "type" v;
  device_id = property "deviceId" v;
  name = property "name" v;
  timestamp = property "timestamp" v;
  actor = property "actor" v;
  description = property "description" v;
})

abbrev if_saved : {Store : Type 0} → Event → Bool × Store → Result Event × Store
if_saved e (true, s) = (returned e, s)
if_saved e (false, s) = (failed, s)

module _ {Store : Type 0} (r : EventRepository Store) where
  abbrev pub save_created : Store → Created → Result Event × Store
  save_created s (validation_error message errors) = (invalid message, s)
  save_created s (created e) = if_saved e (r.save e s)

  -- LogEventUseCase.execute
  unfoldable pub log_event : (id now : String) → Value → Store → Result Event × Store
  unfolding params_of create_event
  log_event id now v s = elim (params_of v) [
    | none ↦ (failed, s)
    | some p ↦ save_created s (create_event id now p)
  ]

  abbrev listed : Option (List Event) → Result (List Event)
  listed none = failed
  listed (some es) = returned es

  -- ListEventsUseCase.execute; a text is all that the handler passes.
  unfoldable pub list_by_device : String → Store → Result (List Event)
  list_by_device d s =
      if not (is_filled (text d))
      then invalid "deviceId is required"
      else if not (is_uuid d)
      then invalid "deviceId must be a valid UUID v4"
      else listed (r.find_by_device_id d s)

  -- ListEventsUseCase.executeByType
  unfoldable pub list_by_type : String → Store → Result (List Event)
  list_by_type t s =
      if not (is_filled (text t)) then invalid "type is required" else listed (r.find_by_type t s)
