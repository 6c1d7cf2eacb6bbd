-- ===== src/Devices/Laws.antt =====
-- What can be clicked in the views of devices.
use Prim.Native.String
use asset_tracker.Prelude.{
  ◌≡◌, refl, Bool, true, false, none, some, List, [], ◌∷◌, String, is_empty, if◌then◌else◌, ap,
}
use asset_tracker.View.{clicks, each}
use asset_tracker.Forms.Device.{Device}
use asset_tracker.Devices.{delete_dialog, device_grid_card, device_grid}

-- An open delete dialog can be cancelled in three ways, by its backdrop, its close button and its
-- button, and confirmed in one; while the deletion is pending nothing that is clicked cancels or
-- confirms it. A closed dialog offers nothing.
clicks-delete_dialog :
    {M : Type 0} (name : String) (confirm cancel ignore : M)
    → (clicks (delete_dialog name true false confirm cancel ignore)
        ≡ cancel ∷ cancel ∷ cancel ∷ confirm ∷ [])
      × (clicks (delete_dialog name true true confirm cancel ignore) ≡ ignore ∷ ignore ∷ [])
      × ((pending : Bool) → clicks (delete_dialog name false pending confirm cancel ignore) ≡ [])
unfolding delete_dialog
clicks-delete_dialog name confirm cancel ignore = (refl, refl, λ pending. refl)

-- The events that the cards of a list of devices offer, in its order.
abbrev pub offers : {M : Type 0} → (navigate delete' edit : String → M) → List Device → List M
offers navigate delete' edit [] = []
offers navigate delete' edit (d ∷ ds) =
    navigate (String.◌++◌ "/devices/" d.id)
    ∷ edit d.id
    ∷ delete' d.id
    ∷ offers navigate delete' edit ds

module _ {M : Type 0} (show_date : String → String) (navigate delete' edit : String → M)
    (retry : M) where
  clicks-each :
      (ds : List Device)
      → clicks (
          each
            (λ d. device_grid_card show_date navigate d false (some delete') (some edit) none)
            ds)
        ≡ offers navigate delete' edit ds
  unfolding device_grid_card
  clicks-each [] = refl
  clicks-each (d ∷ ds) =
      ap (λ l. navigate (String.◌++◌ "/devices/" d.id) ∷ edit d.id ∷ delete' d.id ∷ l)
        (clicks-each ds)

  -- The grid offers nothing while it loads, only to retry after an error, only to create a device if
  -- there is none, and otherwise, for each device in order, its details, editing and deleting it.
  clicks-device_grid :
      (ds : List Device) (is_loading is_error : Bool)
      → clicks (device_grid show_date navigate ds is_loading is_error retry delete' edit) ≡ (
          if is_loading
          then []
          else if is_error
          then retry ∷ []
          else if is_empty ds
          then navigate "/devices/create" ∷ []
          else offers navigate delete' edit ds)
  unfolding device_grid
  clicks-device_grid ds true is_error = refl
  clicks-device_grid ds false true = refl
  clicks-device_grid [] false false = refl
  clicks-device_grid (d ∷ ds) false false = clicks-each (d ∷ ds)
