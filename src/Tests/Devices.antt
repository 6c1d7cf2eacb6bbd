-- ===== src/Tests/Devices.antt =====
-- The pages of devices and of events.
use asset_tracker.Devices.PageProgress.{drive, Reachable-drive}
use asset_tracker.Prelude.{ℕ, ◌≤◌, ◌*◌, length, ◌≡◌, refl, true, false, none, some, [], ◌∷◌}
use asset_tracker.Forms.Device.{Device}
use asset_tracker.Devices.Page.{
  DevicesPage, mount_page, picks_delete, confirms_delete, invalidating, deleting, update,
}
use asset_tracker.Devices.PageView.{page_dialog}
use asset_tracker.Devices.PageLaws.{
  Reachable, mounted, next, acts, confirms, IsOrderly, Reachable-IsOrderly,
}
use asset_tracker.Devices.Detail.{DetailPage}
use asset_tracker.Events.Page.{EventsPage}

abbrev picked : DevicesPage
picked = record {
  show_deleted = false;
  is_refreshing_deleted = false;
  delete_target = some "d1";
  show_create_modal = false;
  editing_device = none;
  tasks = [];
}

confirmed-Reachable :
    Reachable [] (update [] confirms_delete (update [] (picks_delete "d1") mount_page))
unfolding mount_page update page_dialog
confirmed-Reachable = next (next mounted (acts (picks_delete "d1") (λ e. cc))) (confirms refl)

Reachable-IsOrderly_example :
    IsOrderly (update [] confirms_delete (update [] (picks_delete "d1") mount_page))
Reachable-IsOrderly_example = Reachable-IsOrderly [] confirmed-Reachable

abbrev confirmed : DevicesPage
confirmed = update [] confirms_delete (update [] (picks_delete "d1") mount_page)

Reachable-drive_example :
    (n : ℕ) × (n ≤ 3 * length confirmed.tasks)
    × ((drive [] n confirmed).tasks ≡ [])
    × ((drive [] n confirmed).is_refreshing_deleted ≡ false)
Reachable-drive_example = Reachable-drive [] confirmed-Reachable

abbrev overlapping : DevicesPage
overlapping = record picked { is_refreshing_deleted = true; tasks = invalidating ∷ deleting ∷ [] }

abbrev drafted : DetailPage
drafted = record {
  is_editing = false;
  show_delete_dialog = false;
  error = none;
  show_create_event = true;
  event_type = "repair";
  event_name = "Fan";
  event_actor = "";
  event_description = "noisy";
  event_errors = [];
  event_pending = false;
}

abbrev pump : Device
pump = record { id = "d1"; name = "Pump"; type = "water"; created_at = "2024-01-01" }

abbrev selecting : EventsPage
selecting = record { show_form = false; error = none; selected_device_id = "d1" }
