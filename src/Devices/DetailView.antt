-- ===== src/Devices/DetailView.antt =====
-- What the page of one device renders. The parts that are other components' take their views from
-- them; `show_date` is `new Date(…).toLocaleDateString()`.
use asset_tracker.Prelude.{
  Bool, true, false, ◌++◌, Option, none, some, List, [], ◌∷◌, String, if◌then◌else◌,
}
use asset_tracker.Query.{Query}
use asset_tracker.View.{View, heading, text, alert, skeleton, button, field, each, map_view}
use asset_tracker.Shared.Modal.{modal}
use asset_tracker.Forms.{shown}
use asset_tracker.Forms.Device
use asset_tracker.Forms.Device.{Device, DeviceForm, device_form_view, error_view}
use asset_tracker.Forms.Event.{event_type_presets}
use asset_tracker.Events.{DeviceEvent, event_timeline}
use asset_tracker.Devices.{device_card, delete_dialog}
use asset_tracker.Devices.Detail.{
  DetailPage, Event, stops_editing, cancels_delete, ignored, opens_event, closes_event, types_type,
  types_name, types_actor, types_description,
}

-- The controls of the page: the page's own events, those of its form, and the ones that send a
-- request, ask again for the device or leave the page.
pub data Action : Type 0 where
  does : Event → Action
  in_form : Device.Event → Action
  submits_event confirms_delete retries : Action
  navigates : String → Action

pub record DetailProps : Type 0 where
  pub device : Query Device
  pub events : List DeviceEvent
  pub update_pending : Bool
  pub delete_pending : Bool
  pub form : DeviceForm

abbrev preset : String → View Action
preset p = button p false (does (types_type p)) ∷ []

-- The form in the dialog for a new event.
unfoldable pub event_dialog : Device → DetailPage → View Action
event_dialog d s =
    text "Device: "
    ∷ text d.name
    ∷ text "Type"
    ∷ (each preset event_type_presets
        ++ (field "" s.event_type (λ v. does (types_type v))
            ∷ (error_view (shown s.event_errors "type")
                ++ (text "Name"
                    ∷ field "ev-name" s.event_name (λ v. does (types_name v))
                    ∷ (error_view (shown s.event_errors "name")
                        ++ (text "Actor"
                            ∷ field "ev-actor" s.event_actor (λ v. does (types_actor v))
                            ∷ text "Description"
                            ∷ field "ev-desc" s.event_description (λ v. does (types_description v))
                            ∷ (error_view (shown s.event_errors "form")
                                ++ (button "Cancel" false (does closes_event)
                                    ∷ button
                                        (if s.event_pending then "Creating..." else "Create Event")
                                        s.event_pending submits_event
                                    ∷ []))))))))

unfoldable pub editing_view : DetailProps → DetailPage → View Action
unfolding device_form_view
editing_view p s =
    button "← Back to detail" false (does stops_editing)
    ∷ heading "Edit Device"
    ∷ (map_view in_form (device_form_view true p.update_pending p.form) ++ error_view s.error)

unfoldable pub reading_view :
    (show_date : String → String) → DetailProps → Device → DetailPage → View Action
unfolding event_dialog device_card delete_dialog event_timeline modal
reading_view show_date p d s =
    button "← Back to devices" false (navigates "/devices")
    ∷ heading "Device Detail"
    ∷ (device_card show_date navigates d false false none
        ++ (delete_dialog d.name s.show_delete_dialog p.delete_pending confirms_delete
              (does cancels_delete) (does ignored)
            ++ (heading "Event Timeline"
                ∷ button "New Event" false (does opens_event)
                ∷ (event_timeline show_date p.events false false none
                    ++ modal s.show_create_event (does closes_event) (some "Create Event")
                        (event_dialog d s)))))

abbrev loaded_view :
    (show_date : String → String) → DetailProps → DetailPage → Option Device → View Action
loaded_view show_date p s none = alert "Device not found" ∷ button "Retry" false retries ∷ []
loaded_view show_date p s (some d) =
    if s.is_editing then editing_view p s else reading_view show_date p d s

unfoldable pub detail_view : (show_date : String → String) → DetailProps → DetailPage → View Action
unfolding editing_view reading_view
detail_view show_date p s =
    if p.device.is_loading
    then skeleton ∷ skeleton ∷ []
    else if p.device.is_error
    then loaded_view show_date p s none
    else loaded_view show_date p s p.device.content
