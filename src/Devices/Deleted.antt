-- ===== src/Devices/Deleted.antt =====
-- The list of deleted devices, web-ui/src/components/devices/DeletedDevicesList.tsx. Hidden cards
-- are folded away by CSS alone, so they are part of the view.
use Prim.Native.String
use asset_tracker.Prelude.{
  ℕ, Bool, true, false, not, ◌&&◌, ◌||◌, ◌++◌, Option, none, some, List, [], ◌∷◌, String, is_some,
  is_empty, or_else, length, if◌then◌else◌,
}
use asset_tracker.Query.{Query}
use asset_tracker.View.{View, heading, text, alert, button, each}
use asset_tracker.Shared.{loading_skeleton, grid}
use asset_tracker.Shared.Modal.{modal}
use asset_tracker.Forms.Device.{Device}
use asset_tracker.Events.{DeviceEvent, event_timeline, filled}
use asset_tracker.Devices.{device_grid_card}

unfoldable pub map_event_to_device : DeviceEvent → Device
map_event_to_device e = record {
  id = e.device_id;
  name = e.name;
  type = "Deleted";
  created_at = e.timestamp;
}

-- The component's own state, `selectedEvent`, and its controls; `toggles` is the parent's.
pub data Event : Type 0 where
  toggles retries retries_events closes : Event
  selects : DeviceEvent → Event
  navigates : String → Event

unfoldable pub select : Event → Option DeviceEvent → Option DeviceEvent
select (selects e) s = some e
select closes s = none
select _ s = s

pub record DeletedFormats : Type 0 where
  pub show_date : String → String
  pub show_number : ℕ → String

abbrev count_text : DeletedFormats → List DeviceEvent → String
count_text fm es = String.◌++◌ "(" (String.◌++◌ (fm.show_number (length es)) ")")

abbrev toggle_label : DeletedFormats → (show_deleted : Bool) → List DeviceEvent → String
toggle_label fm show_deleted es =
    if show_deleted
    then "Hide deleted devices"
    else String.◌++◌ "Show deleted devices " (count_text fm es)

abbrev card : DeletedFormats → DeviceEvent → View Event
card fm e =
    device_grid_card fm.show_date navigates (map_event_to_device e) true none none
      (some (λ id. selects e))

-- The content for a list that is there and not empty.
abbrev cards : DeletedFormats → (show_deleted is_busy : Bool) → List DeviceEvent → View Event
cards fm show_deleted is_busy es =
    button (toggle_label fm show_deleted es) false toggles
    ∷ (if is_busy then loading_skeleton none (some grid) (some (length es)) else each (card fm) es)

abbrev loaded :
    DeletedFormats → (show_deleted is_busy : Bool) → Option (List DeviceEvent) → View Event
loaded fm show_deleted is_busy none = text "No deleted devices" ∷ []
loaded fm show_deleted is_busy (some es) =
    if is_empty es then text "No deleted devices" ∷ [] else cards fm show_deleted is_busy es

unfoldable pub selected_view : DeletedFormats → Query (List DeviceEvent) → DeviceEvent → View Event
unfolding event_timeline
selected_view fm device_events e =
    text "Name"
    ∷ text e.name
    ∷ text "Device ID"
    ∷ text e.device_id
    ∷ text "Deleted at"
    ∷ text (fm.show_date e.timestamp)
    ∷ (filled (λ a. text "Actor" ∷ text a ∷ []) e.actor
        ++ (filled (λ d. text "Description" ∷ text d ∷ []) e.description
            ++ heading "Event Timeline"
              ∷ event_timeline fm.show_date (or_else device_events.content [])
                  device_events.is_loading device_events.is_error (some retries_events)))

abbrev dialog : DeletedFormats → Query (List DeviceEvent) → Option DeviceEvent → View Event
dialog fm device_events none = []
dialog fm device_events (some e) = selected_view fm device_events e

unfoldable pub deleted_devices_list :
    DeletedFormats
    → (deleted device_events : Query (List DeviceEvent)) → (show_deleted is_refreshing : Bool)
    → (selected_event : Option DeviceEvent) → View Event
unfolding map_event_to_device device_grid_card loading_skeleton selected_view modal
deleted_devices_list fm q device_events show_deleted is_refreshing selected_event =
    if not (is_some q.content) && not q.is_loading && not q.is_error
    then []
    else heading "Deleted Devices"
      ∷ ((if q.is_loading
            then loading_skeleton (some 3) none none
            else if q.is_error
            then alert "Failed to load deleted devices" ∷ button "Try again" false retries ∷ []
            else loaded fm show_deleted (is_refreshing || q.is_fetching) q.content)
          ++ modal (is_some selected_event) closes (some "Deleted Device")
              (dialog fm device_events selected_event))
