-- ===== src/Devices.antt =====
-- The components of web-ui/src/components/devices: DeviceGridCard.tsx, DeviceCard.tsx,
-- DeviceGrid.tsx and DeleteDialog.tsx here; the pages below. `show_date` is
-- `new Date(…).toLocaleDateString()`. A navigation is an event, with its path.
pub mod Deleted
pub mod Page
pub mod PageView
pub mod PageLaws
pub mod PageProgress
pub mod Detail
pub mod DetailView
pub mod DetailLaws
pub mod Laws
use Prim.Native.String
use asset_tracker.Prelude.{
  ℕ, ◌≡◌, Bool, true, false, not, ◌&&◌, ◌++◌, Option, none, some, List, [], ◌∷◌, String, is_empty,
  if◌then◌else◌, replicate,
}
use asset_tracker.View.{Element, View, heading, text, alert, skeleton, button, clickable, each}
use asset_tracker.Shared.Modal.{modal}
use asset_tracker.Forms.Device.{Device}

abbrev optional_button : {M : Type 0} → String → Option (String → M) → String → View M
optional_button label none id = []
optional_button label (some f) id = button label false (f id) ∷ []

abbrev details : {M : Type 0} → Option (String → M) → (navigate : String → M) → String → M
details none navigate id = navigate (String.◌++◌ "/devices/" id)
details (some f) navigate id = f id

unfoldable pub device_grid_card :
    {M : Type 0}
    → (show_date : String → String) → (navigate : String → M) → Device
    → (deleted : Bool) → (on_delete on_edit on_details : Option (String → M)) → View M
device_grid_card show_date navigate d deleted on_delete on_edit on_details =
    heading d.name
    ∷ text (if deleted then "Deleted" else d.type)
    ∷ text (String.◌++◌ (if deleted then "Deleted: " else "Created: ") (show_date d.created_at))
    ∷ button "Details" false (details on_details navigate d.id)
    ∷ (if deleted
        then []
        else optional_button "Edit" on_edit d.id ++ optional_button "Delete" on_delete d.id)

abbrev retry_view : {M : Type 0} → Option M → View M
retry_view none = []
retry_view (some m) = button "Try again" false m ∷ []

unfoldable pub device_card :
    {M : Type 0}
    → (show_date : String → String) → (navigate : String → M) → Device
    → (is_loading is_error : Bool) → (on_retry : Option M) → View M
device_card show_date navigate d is_loading is_error on_retry =
    if is_loading
    then skeleton ∷ []
    else if is_error
    then alert "Failed to load device" ∷ retry_view on_retry
    else clickable (navigate (String.◌++◌ "/devices/" d.id))
      ∷ heading d.name
      ∷ text (String.◌++◌ "ID: " d.id)
      ∷ text d.type
      ∷ text (String.◌++◌ "Created: " (show_date d.created_at))
      ∷ []

unfoldable pub skeleton_grid : {M : Type 0} → View M
skeleton_grid = replicate 4 skeleton

unfoldable pub error_state : {M : Type 0} → (on_retry : M) → View M
error_state on_retry =
    alert "Failed to load devices" ∷ text "Retry?" ∷ button "Retry" false on_retry ∷ []

unfoldable pub empty_state : {M : Type 0} → (on_navigate : M) → View M
empty_state on_navigate =
    text "No devices yet."
    ∷ text "Create your first device."
    ∷ button "Create Device" false on_navigate
    ∷ []

unfoldable pub device_grid :
    {M : Type 0}
    → (show_date : String → String) → (navigate : String → M) → List Device
    → (is_loading is_error : Bool) → (on_retry : M) → (on_delete on_edit : String → M) → View M
unfolding skeleton_grid error_state empty_state device_grid_card
device_grid show_date navigate ds is_loading is_error on_retry on_delete on_edit =
    if is_loading
    then skeleton_grid
    else if is_error
    then error_state on_retry
    else if is_empty ds
    then empty_state (navigate "/devices/create")
    else each
        (λ d. device_grid_card show_date navigate d false (some on_delete) (some on_edit) none) ds

-- The close request of the modal: ignored while the deletion is pending.
unfoldable pub handle_close : {M : Type 0} → (is_pending : Bool) → (on_cancel ignore : M) → M
handle_close is_pending on_cancel ignore = if not is_pending then on_cancel else ignore

unfoldable pub delete_dialog :
    {M : Type 0}
    → (device_name : String) → (is_open is_pending : Bool) → (on_confirm on_cancel ignore : M)
    → View M
unfolding handle_close modal
delete_dialog device_name is_open is_pending on_confirm on_cancel ignore =
    modal is_open (handle_close is_pending on_cancel ignore) (some "Delete Device") (
      text "Are you sure you want to delete "
      ∷ text device_name
      ∷ text "? This action cannot be undone."
      ∷ button "Cancel" is_pending on_cancel
      ∷ button (if is_pending then "Deleting..." else "Delete") is_pending on_confirm
      ∷ [])
