-- ===== src/Events/Page.antt =====
-- The events page, web-ui/src/routes/events.tsx: its state, its handlers and what it renders.
use asset_tracker.Prelude.{
  Bool, true, false, not, ◌&&◌, ◌++◌, Option, none, some, List, [], ◌∷◌, String, or_else, truthy,
}
use asset_tracker.Query.{Query}
use asset_tracker.View.{View, heading, text, button, field, choice, each, when, map_view}
use asset_tracker.Forms.Device.{Device, error_view}
use asset_tracker.Forms.Event.{Event as FormEvent, EventForm, event_form_view, or_undefined}
use asset_tracker.Events.{DeviceEvent, event_table}

pub record EventsPage : Type 0 where
  pub show_form : Bool
  pub error : Option String
  pub selected_device_id : String

unfoldable pub mount_events : EventsPage
mount_events = record { show_form = false; error = none; selected_device_id = "" }

-- `submitted` is the form's `onSubmit` up to its `await`, `created` and `create_failed` its ends.
pub data Event : Type 0 where
  opens_form cancels_form submitted created create_failed retries : Event
  selects : String → Event
  in_form : FormEvent → Event

unfoldable pub update : Event → EventsPage → EventsPage
update opens_form s = record s { show_form = true }
update cancels_form s = record s { show_form = false; error = none }
update submitted s = record s { error = none }
update created s = record s { show_form = false }
update create_failed s = record s { error = some "Failed to create event. Please try again." }
update (selects id) s = record s { selected_device_id = id }
update _ s = s

-- The query of `useEvents(selectedDeviceId || undefined)`: for which device, and whether it runs,
-- with the token of the session.
unfoldable pub events_query : (token : Option String) → EventsPage → Option String × Bool
events_query token s = (
  or_undefined s.selected_device_id,
  truthy (or_else token "") && truthy (or_else (or_undefined s.selected_device_id) ""),
)

abbrev device_choice : Device → View Event
device_choice d = choice d.id d.name ∷ []

unfoldable pub events_page :
    (show_time : String → String)
    → (devices : Option (List Device)) → (events : Query (List DeviceEvent))
    → (create_pending : Bool) → EventForm
    → EventsPage
    → View Event
unfolding event_form_view event_table
events_page show_time devices q create_pending form s =
    heading "Events"
    ∷ (when (not s.show_form) (button "Create Event" false opens_form ∷ [])
        ++ (text "Filter by device"
            ∷ field "device-filter" s.selected_device_id selects
            ∷ choice "" "Select a device..."
            ∷ (each device_choice (or_else devices [])
                ++ (when s.show_form (
                      heading "New Event"
                      ∷ button "Cancel" false cancels_form
                      ∷ (map_view in_form (event_form_view (or_else devices []) create_pending form)
                          ++ error_view s.error))
                    ++ (event_table show_time (or_else q.content []) q.is_loading q.is_error retries
                        ++ when
                            (not (truthy s.selected_device_id)
                              && not q.is_loading
                              && not q.is_error)
                            (text "Select a device"
                              ∷ text
                                  "Choose a device from the filter above to view its event history."
                              ∷ []))))))
