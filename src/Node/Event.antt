-- ===== src/Node/Event.antt =====
-- The event entity, node-service/src/domain/event.js. `id` is `crypto.randomUUID()` and `now` is
-- `new Date().toISOString()` at the call.
pub mod Laws
use Prim.Native.String
use asset_tracker.Prelude.{
  Bool, true, false, not, List, [], ◌∷◌, ◌++◌, String, is_empty, if◌then◌else◌,
}
use asset_tracker.Node.Value.{Value, undefined, text, is_truthy, default_null, is_filled}
use asset_tracker.Node.Uuid.{is_uuid}

-- The argument of `createEvent`; a field that is left out is undefined.
pub record Params : Type 0 where
  pub type : Value
  pub device_id : Value
  pub name : Value
  pub timestamp : Value
  pub actor : Value
  pub description : Value

-- The entity, and the documents that are stored of it. Only the first four fields are tested.
pub record Event : Type 0 where
  pub id : Value
  pub type : Value
  pub device_id : Value
  pub name : Value
  pub timestamp : Value
  pub actor : Value
  pub description : Value

pub data Created : Type 0 where
  created : Event → Created
  validation_error : (message : String) → (errors : List String) → Created

abbrev pub is_uuid_text : Value → Bool
is_uuid_text (text s) = is_uuid s
is_uuid_text _ = false

abbrev type_errors : Value → List String
type_errors v = if is_filled v then [] else "type is required and must be a non-empty string" ∷ []

abbrev device_id_errors : Value → List String
device_id_errors v =
    if not (is_filled v)
    then "deviceId is required and must be a non-empty string" ∷ []
    else if not (is_uuid_text v)
    then "deviceId must be a valid UUID v4" ∷ []
    else []

abbrev name_errors : Value → List String
name_errors v = if is_filled v then [] else "name is required and must be a non-empty string" ∷ []

abbrev pub errors_of : Params → List String
errors_of p = type_errors p.type ++ (device_id_errors p.device_id ++ name_errors p.name)

-- `errors.join('; ')`
abbrev pub join : List String → String
join [] = ""
join (e ∷ []) = e
join (e ∷ (f ∷ es)) = String.◌++◌ e (String.◌++◌ "; " (join (f ∷ es)))

-- The event that a call without errors gives.
abbrev pub event_of : (id now : String) → Params → Event
event_of id now p = record {
  id = text id;
  type = p.type;
  device_id = p.device_id;
  name = p.name;
  timestamp = if is_truthy p.timestamp then p.timestamp else text now;
  actor = default_null p.actor;
  description = default_null p.description;
}

abbrev checked : (id now : String) → Params → List String → Created
checked id now p [] = created (event_of id now p)
checked id now p (e ∷ es) = validation_error (join (e ∷ es)) (e ∷ es)

unfoldable pub create_event : (id now : String) → Params → Created
create_event id now p = checked id now p (errors_of p)
