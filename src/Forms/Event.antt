-- ===== src/Forms/Event.antt =====
-- The form of an event, web-ui/src/components/events/EventForm.tsx.
use asset_tracker.Prelude.{
  Bool, false, ◌++◌, Option, none, some, List, [], ◌∷◌, String, ◌==◌, or_else, truthy,
  if◌then◌else◌,
}
use asset_tracker.View.{View, text, button, field, choice, each}
use asset_tracker.Api.Events.{CreateEventInput}
use asset_tracker.Forms.{
  Values, Parsed, success, failure, Zod, create_event_schema, Errors, shown, field_errors,
}
use asset_tracker.Forms.Device.{Device, error_view}

abbrev pub event_type_presets : List String
event_type_presets =
    "maintenance" ∷ "inspection" ∷ "repair" ∷ "relocation" ∷ "decommissioned" ∷ "alert" ∷ "audit"
    ∷ "firmware-update" ∷ []

pub record EventForm : Type 0 where
  pub type : String
  pub device_id : String
  pub name : String
  pub actor : String
  pub description : String
  pub errors : Errors

unfoldable pub new_event_form : EventForm
new_event_form = record {
  type = "";
  device_id = "";
  name = "";
  actor = "";
  description = "";
  errors = [];
}

pub data Event : Type 0 where
  types_type picks_device types_name types_actor types_description : String → Event
  submits cancels : Event

unfoldable pub type_in : Event → EventForm → EventForm
type_in (types_type v) f = record f { type = v }
type_in (picks_device v) f = record f { device_id = v }
type_in (types_name v) f = record f { name = v }
type_in (types_actor v) f = record f { actor = v }
type_in (types_description v) f = record f { description = v }
type_in _ f = f

-- `text || undefined`
abbrev pub or_undefined : String → Option String
or_undefined s = if truthy s then some s else none

abbrev pub event_values : (type device_id name actor description : String) → Values
event_values type device_id name actor description k =
    if k == "type"
    then some type
    else if k == "deviceId"
    then some device_id
    else if k == "name"
    then some name
    else if k == "actor"
    then or_undefined actor
    else if k == "description"
    then or_undefined description
    else none

abbrev pub values : EventForm → Values
values f = event_values f.type f.device_id f.name f.actor f.description

-- `result.data`
abbrev pub input : Values → CreateEventInput
input v = record {
  type = or_else (v "type") "";
  device_id = or_else (v "deviceId") "";
  name = or_else (v "name") "";
  actor = v "actor";
  description = v "description";
}

abbrev submitted : EventForm → Parsed → EventForm × Option CreateEventInput
submitted f (failure is) = (record f { errors = field_errors [] is }, none)
submitted f (success v) = (record f { errors = [] }, some (input v))

-- `handleSubmit`: the form, and the input with which it calls `onSubmit`.
unfoldable pub handle_submit : Zod → EventForm → EventForm × Option CreateEventInput
handle_submit z f = submitted f (z.safe_parse create_event_schema (values f))

abbrev preset : String → View Event
preset p = button p false (types_type p) ∷ []

abbrev suggestion : String → View Event
suggestion p = choice p p ∷ []

abbrev device_choice : {M : Type 0} → Device → View M
device_choice d = choice d.id d.name ∷ []

unfoldable pub event_form_view : List Device → (is_pending : Bool) → EventForm → View Event
event_form_view devices is_pending f =
    text "Type"
    ∷ (each preset event_type_presets
        ++ (field "type" f.type types_type
            ∷ (each suggestion event_type_presets
                ++ (error_view (shown f.errors "type")
                    ++ (text "Device"
                        ∷ field "deviceId" f.device_id picks_device
                        ∷ choice "" "Select device..."
                        ∷ (each device_choice devices
                            ++ (error_view (shown f.errors "deviceId")
                                ++ (text "Name"
                                    ∷ field "name" f.name types_name
                                    ∷ (error_view (shown f.errors "name")
                                        ++ (text "Actor"
                                            ∷ field "actor" f.actor types_actor
                                            ∷ text "Description"
                                            ∷ field "description" f.description types_description
                                            ∷ button
                                                (if is_pending
                                                  then "Creating..."
                                                  else "Create Event")
                                                is_pending submits
                                            ∷ button "Cancel" false cancels
                                            ∷ []))))))))))
