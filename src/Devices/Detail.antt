-- ===== src/Devices/Detail.antt =====
-- The page of one device, web-ui/src/routes/devices.$id.tsx: its state and its handlers. Its
-- asynchronous handlers are cut at their `await`: the request that is sent, and the events with
-- which it settles.
use asset_tracker.Prelude.{Bool, true, false, Option, none, some, [], ◌∷◌, String}
use asset_tracker.Api.Events.{CreateEventInput}
use asset_tracker.Forms.{
  Values, Parsed, success, failure, Zod, create_event_schema, Errors, field_errors,
}
use asset_tracker.Forms.Event.{event_values, input}

pub record DetailPage : Type 0 where
  pub is_editing : Bool
  pub show_delete_dialog : Bool
  pub error : Option String
  pub show_create_event : Bool
  pub event_type : String
  pub event_name : String
  pub event_actor : String
  pub event_description : String
  pub event_errors : Errors
  pub event_pending : Bool

unfoldable pub mount_detail : DetailPage
mount_detail = record {
  is_editing = false;
  show_delete_dialog = false;
  error = none;
  show_create_event = false;
  event_type = "";
  event_name = "";
  event_actor = "";
  event_description = "";
  event_errors = [];
  event_pending = false;
}

unfoldable pub reset_event_form : DetailPage → DetailPage
reset_event_form s = record s {
  event_type = "";
  event_name = "";
  event_actor = "";
  event_description = "";
  event_errors = [];
  event_pending = false;
}

abbrev validated : DetailPage → Parsed → DetailPage × Option CreateEventInput
validated s (failure is) = (record s { event_errors = field_errors [] is }, none)
validated s (success v) = (record s { event_errors = []; event_pending = true }, some (input v))

abbrev pub values : (id : String) → DetailPage → Values
values id s = event_values s.event_type id s.event_name s.event_actor s.event_description

-- `handleCreateEvent` up to its `await`: the page, and the event that it sends.
unfoldable pub handle_create_event :
    Zod → (id : String) → DetailPage → DetailPage × Option CreateEventInput
handle_create_event z id s = validated s (z.safe_parse create_event_schema (values id s))

-- From its `await` on, and the ends of the other two requests; `finally` ends the wait.
unfoldable pub event_created : DetailPage → DetailPage
unfolding reset_event_form
event_created s = record (reset_event_form s) { show_create_event = false; event_pending = false }

unfoldable pub event_failed : DetailPage → DetailPage
event_failed s = record s {
  event_errors = ("form", "Failed to create event. Please try again.") ∷ [];
  event_pending = false;
}

pub data Event : Type 0 where
  stops_editing saves update_resolved update_rejected : Event
  cancels_delete delete_rejected ignored : Event
  opens_event closes_event : Event
  types_type types_name types_actor types_description : String → Event

-- The handlers without a validation. `saves` is the form's `onSubmit` up to its `await`.
unfoldable pub update : Event → DetailPage → DetailPage
unfolding reset_event_form
update stops_editing s = record s { is_editing = false }
update saves s = record s { error = none }
update update_resolved s = record s { is_editing = false }
update update_rejected s = record s { error = some "Failed to update device. Please try again." }
update cancels_delete s = record s { show_delete_dialog = false }
update delete_rejected s = record s { show_delete_dialog = false }
update opens_event s = record (reset_event_form s) { show_create_event = true }
update closes_event s = record s { show_create_event = false }
update (types_type v) s = record s { event_type = v }
update (types_name v) s = record s { event_name = v }
update (types_actor v) s = record s { event_actor = v }
update (types_description v) s = record s { event_description = v }
update ignored s = s
