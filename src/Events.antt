-- ===== src/Events.antt =====
-- The components of web-ui/src/components/events: EventTable.tsx and EventTimeline.tsx here, the
-- events page below.
pub mod Page
pub mod Laws
use Prim.Native.String
use asset_tracker.Prelude.{
  ◌≡◌, Bool, true, false, ◌++◌, Option, none, some, List, [], ◌∷◌, String, ◌==◌, or_else, is_empty,
  truthy, replicate, if◌then◌else◌,
}
use asset_tracker.View.{Element, View, heading, text, alert, skeleton, button, each}

-- web-ui/src/lib/schemas/event.ts; `none` is null or undefined.
pub record DeviceEvent : Type 0 where
  pub id : String
  pub type : String
  pub device_id : String
  pub name : String
  pub timestamp : String
  pub actor : Option String
  pub description : Option String

-- The colours of a badge, the same in both components, and of a dot of the timeline.
unfoldable pub badge_color : String → String
badge_color type =
    if type == "device.created"
    then "bg-green-900/30 text-green-300"
    else if type == "device.updated"
    then "bg-blue-900/30 text-blue-300"
    else if type == "device.deleted"
    then "bg-red-900/30 text-red-300"
    else "bg-slate-700 text-slate-300"

unfoldable pub dot_color : String → String
dot_color type =
    if type == "device.created"
    then "bg-green-500"
    else if type == "device.deleted"
    then "bg-red-500"
    else "bg-blue-500"

abbrev table_row : {M : Type 0} → (String → String) → DeviceEvent → View M
table_row show_time e =
    text e.type
    ∷ text e.device_id
    ∷ text (show_time e.timestamp)
    ∷ text (or_else e.actor "—")
    ∷ text (or_else e.description "—")
    ∷ []

abbrev loading_state : {M : Type 0} → View M
loading_state = replicate 4 skeleton

abbrev empty_state : {M : Type 0} → View M
empty_state = text "No events found" ∷ text "There are no events to display." ∷ []

abbrev error_state : {M : Type 0} → (on_retry : M) → View M
error_state on_retry =
    alert "Failed to load events." ∷ text "Retry?" ∷ button "Retry" false on_retry ∷ []

abbrev table_head : {M : Type 0} → View M
table_head =
    heading "Type"
    ∷ heading "Device"
    ∷ heading "Timestamp"
    ∷ heading "Actor"
    ∷ heading "Description"
    ∷ []

unfoldable pub event_table :
    {M : Type 0}
    → (show_time : String → String) → List DeviceEvent
    → (is_loading is_error : Bool) → (on_retry : M) → View M
event_table show_time es is_loading is_error on_retry =
    if is_loading
    then loading_state
    else if is_error
    then error_state on_retry
    else if is_empty es
    then empty_state
    else table_head ++ each (table_row show_time) es

-- `{value && …}` for an optional text
abbrev pub filled : {M : Type 0} → (String → View M) → Option String → View M
filled f none = []
filled f (some s) = if truthy s then f s else []

abbrev timeline_item : {M : Type 0} → (String → String) → DeviceEvent → View M
timeline_item show_date e =
    text e.type
    ∷ text (show_date e.timestamp)
    ∷ text e.name
    ∷ (filled (λ d. text d ∷ []) e.description
        ++ filled (λ a. text (String.◌++◌ "by " a) ∷ []) e.actor)

abbrev try_again : {M : Type 0} → Option M → View M
try_again none = []
try_again (some m) = button "Try again" false m ∷ []

-- Props that are left out are false and `none`.
unfoldable pub event_timeline :
    {M : Type 0}
    → (show_date : String → String) → List DeviceEvent
    → (is_loading is_error : Bool) → (on_retry : Option M) → View M
event_timeline show_date es is_loading is_error on_retry =
    if is_error
    then alert "Failed to load events" ∷ try_again on_retry
    else if is_loading
    then replicate 3 skeleton
    else if is_empty es
    then text "No events for this device" ∷ []
    else each (timeline_item show_date) es
