-- ===== src/Devices/PageView.antt =====
-- What the devices page renders; the list of deleted devices has its own file.
use asset_tracker.Prelude.{
  Bool, false, not, ◌++◌, Option, none, some, List, [], ◌∷◌, String, ◌==◌, is_some, or_else, truthy,
  if◌then◌else◌,
}
use asset_tracker.Query.{Query}
use asset_tracker.View.{View, heading, button, outlet, map_view}
use asset_tracker.Forms.Device
use asset_tracker.Forms.Device.{Device, DeviceForm, device_form_modal}
use asset_tracker.Devices.{device_grid, delete_dialog}
use asset_tracker.Devices.Deleted
use asset_tracker.Devices.Page.{
  SelectedDevice, DevicesPage, Event, opens_create, closes_create, closes_edit, edits, picks_delete,
  navigates, cancels_delete, confirms_delete, retries, ignored, find_device, is_delete_pending,
}

-- The controls of the page and of its parts.
pub data Action : Type 0 where
  does : Event → Action
  in_create in_edit : Device.Event → Action
  in_deleted : Deleted.Event → Action

pub record PageProps : Type 0 where
  pub pathname : String
  pub devices : Query (List Device)
  pub create_pending : Bool
  pub update_pending : Bool
  pub create_form : DeviceForm
  pub edit_form : DeviceForm

abbrev target : List Device → Option String → Option Device
target ds none = none
target ds (some id) = if truthy id then find_device id ds else none

abbrev editing : List Device → Option SelectedDevice → Option Device
editing ds none = none
editing ds (some e) = find_device e.id ds

abbrev name_of : Option Device → String
name_of none = ""
name_of (some d) = d.name

abbrev is_target : Option String → Bool
is_target none = false
is_target (some id) = truthy id

-- The dialog that asks before a deletion, with `handle` for its controls.
unfoldable pub page_dialog :
    {M : Type 0} → (handle : Event → M) → List Device → DevicesPage → View M
unfolding delete_dialog
page_dialog handle ds s =
    delete_dialog (name_of (target ds s.delete_target)) (is_target s.delete_target)
      (is_delete_pending s) (handle confirms_delete) (handle cancels_delete) (handle ignored)

unfoldable pub devices_page :
    (show_date : String → String)
    → PageProps
    → (deleted : View Deleted.Event) → DevicesPage
    → View Action
unfolding device_grid page_dialog device_form_modal
devices_page show_date p deleted s =
    let ds = or_else p.devices.content [] in
    if not (p.pathname == "/devices")
    then outlet ∷ []
    else heading "Devices"
      ∷ button "Create Device" false (does opens_create)
      ∷ (device_grid show_date (λ path. does (navigates path)) ds p.devices.is_loading
            p.devices.is_error (does retries) (λ id. does (picks_delete id)) (λ id. does (edits id))
          ++ (map_view in_deleted deleted
              ++ (page_dialog does ds s
                  ++ (device_form_modal s.show_create_modal (does closes_create) none
                        p.create_pending p.create_form in_create
                      ++ device_form_modal (is_some s.editing_device) (does closes_edit)
                          (editing ds s.editing_device) p.update_pending p.edit_form in_edit))))
