-- ===== src/Forms/Device.antt =====
-- The form of a device, web-ui/src/components/devices/DeviceForm.tsx, and its modal,
-- DeviceFormModal.tsx. `z` is the validation library; `onSubmit` is an event of the parent.
use Prim.Native.String
use asset_tracker.Prelude.{
  Bool, false, ◌++◌, Option, none, some, [], ◌∷◌, String, ◌==◌, is_some, or_else, if◌then◌else◌,
}
use asset_tracker.View.{View, text, alert, button, field, map_view}
use asset_tracker.Api.Devices.{CreateDeviceInput}
use asset_tracker.Shared.Modal.{modal}
use asset_tracker.Forms.{
  Values, Parsed, success, failure, Zod, create_device_schema, Errors, shown, field_errors,
}

-- web-ui/src/lib/schemas/device.ts
pub record Device : Type 0 where
  pub id : String
  pub name : String
  pub type : String
  pub created_at : String

pub record DeviceForm : Type 0 where
  pub name : String
  pub type : String
  pub errors : Errors

unfoldable pub mount_device_form : Option Device → DeviceForm
mount_device_form none = record { name = ""; type = ""; errors = [] }
mount_device_form (some d) = record { name = d.name; type = d.type; errors = [] }

pub data Event : Type 0 where
  types_name types_type : String → Event
  submits cancels : Event

abbrev pub values : DeviceForm → Values
values f k = if k == "name" then some f.name else if k == "type" then some f.type else none

-- `result.data`, a field of which is a text.
abbrev input : Values → CreateDeviceInput
input v = record { name = or_else (v "name") ""; type = or_else (v "type") "" }

abbrev submitted : DeviceForm → Parsed → DeviceForm × Option CreateDeviceInput
submitted f (failure is) = (record f { errors = field_errors [] is }, none)
submitted f (success v) = (record f { errors = [] }, some (input v))

-- `handleSubmit`: the form, and the input with which it calls `onSubmit`. A rejection of
-- `onSubmit` is left to the parent.
unfoldable pub handle_submit : Zod → DeviceForm → DeviceForm × Option CreateDeviceInput
handle_submit z f = submitted f (z.safe_parse create_device_schema (values f))

unfoldable pub type_in : Event → DeviceForm → DeviceForm
type_in (types_name v) f = record f { name = v }
type_in (types_type v) f = record f { type = v }
type_in _ f = f

abbrev pub error_view : {M : Type 0} → Option String → View M
error_view none = []
error_view (some m) = alert m ∷ []

abbrev pub submit_label : (is_edit is_pending : Bool) → String
submit_label is_edit is_pending =
    if is_pending
    then if is_edit then "Saving..." else "Creating..."
    else if is_edit
    then "Save Changes"
    else "Create Device"

unfoldable pub device_form_view : (is_edit is_pending : Bool) → DeviceForm → View Event
device_form_view is_edit is_pending f =
    text "Name"
    ∷ field "name" f.name types_name
    ∷ (error_view (shown f.errors "name")
        ++ text "Type"
          ∷ field "type" f.type types_type
          ∷ (error_view (shown f.errors "type")
              ++ button (submit_label is_edit is_pending) is_pending submits
                ∷ button "Cancel" false cancels
                ∷ []))

-- What "Cancel" does: the parent's `onCancel`, or a navigation.
pub data Cancel (M : Type 0) : Type 0 where
  calls : M → Cancel M
  navigates : String → Cancel M

unfoldable pub on_cancel : {M : Type 0} → Option M → Cancel M
on_cancel none = navigates "/devices"
on_cancel (some m) = calls m

-- The modal gives `onCancel` its own `onClose`.
unfoldable pub device_form_modal :
    {M : Type 0}
    → (is_open : Bool) → (on_close : M) → Option Device
    → (is_pending : Bool) → DeviceForm
    → (Event → M)
    → View M
unfolding device_form_view modal
device_form_modal is_open on_close device is_pending f raise =
    modal is_open on_close
      (some (elim device [ none ↦ "Create Device" | some d ↦ String.◌++◌ "Edit " d.name ]))
      (map_view raise (device_form_view (is_some device) is_pending f))
