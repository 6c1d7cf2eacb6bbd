-- ===== src/Node/Consumer.antt =====
-- The consumer of device events from Kafka, node-service/src/infrastructure/
-- kafka-event-consumer.js, and its port node-service/src/application/event-consumer.js. The client
-- library is a parameter: which of its calls resolve.
pub mod Laws
use asset_tracker.Prelude.{
  ℕ, zero, suc, Bool, true, false, ◌&&◌, ◌||◌, not, Option, none, some, List, [], ◌∷◌, ◌++◌, String,
  ◌==◌, length, any, if◌then◌else◌,
}
use asset_tracker.Node.Value.{Value, undefined, null, text, property, is_truthy, is_filled}
use asset_tracker.Node.Event.{Params, Event}
use asset_tracker.Node.Repository.{EventRepository}
use asset_tracker.Node.UseCases.{Result, returned, invalid, failed, save_created}
use asset_tracker.Node.Event.{create_event}

abbrev pub valid_event_types : List String
valid_event_types = "device.created" ∷ "device.updated" ∷ "device.deleted" ∷ []

-- `VALID_EVENT_TYPES.has(v)`
abbrev pub is_known_type : Value → Bool
is_known_type (text t) = any (λ k. k == t) valid_event_types
is_known_type _ = false

abbrev pub is_text_value : Value → Bool
is_text_value (text t) = true
is_text_value _ = false

-- `#validate` of a value that is not undefined or null.
unfoldable pub validate : Value → Bool
validate v =
    if not (is_truthy (property "type" v)) || not (is_text_value (property "type" v))
    then false
    else if not (is_known_type (property "type" v))
    then false
    else if not (is_filled (property "deviceId" v))
    then false
    else if not (is_filled (property "name" v))
    then false
    else if not (is_truthy (property "timestamp" v)) || not (is_text_value (property "timestamp" v))
    then false
    else true

-- The four fields that are handed to the use case.
abbrev pub message_params : Value → Params
message_params v = record {
  type = property "type" v;
  device_id = property "deviceId" v;
  name = property "name" v;
  timestamp = property "timestamp" v;
  actor = undefined;
  description = undefined;
}

-- A message with the UUID and the time that it meets; `none` for a value that is null, on which
-- `toString` throws.
pub record Message : Type 0 where
  pub value : Option String
  pub id : String
  pub now : String

module _ {Store : Type 0} (r : EventRepository Store) (json_parse : String → Option Value) where
  abbrev pub handle_parsed : (id now : String) → Option Value → Store → Store
  handle_parsed id now none s = s
  handle_parsed id now (some undefined) s = s
  handle_parsed id now (some null) s = s
  handle_parsed id now (some v) s =
      if validate v then (save_created r s (create_event id now (message_params v))).1 else s

  -- `#handleMessage`: it always resolves, whatever is thrown inside.
  unfoldable pub handle_message : Message → Store → Store
  unfolding validate create_event
  handle_message m s = elim m.value [
    | none ↦ s
    | some raw ↦ handle_parsed m.id m.now (json_parse raw) s
  ]

  -- `eachMessage`, for the messages of a topic in their order.
  unfoldable pub consume : List Message → Store → Store
  unfolding handle_message
  consume [] s = s
  consume (m ∷ ms) s = consume ms (handle_message m s)

-- A client of the library, by the last call on it that resolved.
pub data ClientState : Type 0 where
  idle connected subscribed running disconnected : ClientState

-- The field `consumer`, by its place among all clients that were made.
pub record Consumer : Type 0 where
  pub consumer : Option ℕ
  pub clients : List ClientState

unfoldable pub new_consumer : Consumer
new_consumer = record { consumer = none; clients = [] }

-- Which of the calls in `start` resolve; `makes` is `kafka.consumer(…)`, which may throw.
pub record Attempt : Type 0 where
  pub makes : Bool
  pub connects : Bool
  pub subscribes : Bool
  pub runs : Bool

abbrev pub reached : Attempt → ClientState
reached a =
    if not a.connects
    then idle
    else if not a.subscribes
    then connected
    else if not a.runs
    then subscribed
    else running

unfoldable pub start : Attempt → Consumer → Consumer
start a c =
    if a.makes
    then record { consumer = some (length c.clients); clients = c.clients ++ reached a ∷ [] }
    else c

abbrev pub set_client : ℕ → ClientState → List ClientState → List ClientState
set_client k x [] = []
set_client zero x (c ∷ cs) = x ∷ cs
set_client (suc k) x (c ∷ cs) = c ∷ set_client k x cs

-- `stop`; `disconnects` says whether the call resolves.
unfoldable pub stop : (disconnects : Bool) → Consumer → Consumer
stop disconnects c = elim c.consumer [
  | none ↦ c
  | some k ↦ if disconnects then record c { clients = set_client k disconnected c.clients } else c
]
