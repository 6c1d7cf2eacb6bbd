-- ===== src/Tests/Forms.antt =====
-- Submitting forms with a validation library that collects the issues field by field.
use asset_tracker.Prelude.{String, ◌≢◌, ◌⊎◌, ◌≡◌, none, some, List, [], ◌∷◌}
use asset_tracker.Forms.{Issue, shown}
use asset_tracker.Forms.Reference.{reference}
use asset_tracker.Forms.Device
use asset_tracker.Forms.Device.{DeviceForm}
use asset_tracker.Forms.Event
use asset_tracker.Forms.Event.{EventForm}
use asset_tracker.Forms.Submitting.{device-handle_submit, event-handle_submit}

abbrev nameless : DeviceForm
nameless = record { name = ""; type = "sensor"; errors = [] }

device-handle_submit_example :
    let (f', called) = Device.handle_submit reference nameless in
    (f'.name ≡ "")
    × (f'.type ≡ "sensor")
    × ((◌≢◌ {A = String} "" "")
          × (◌≢◌ {A = String} "sensor" "")
          × (called ≡ some (record { name = ""; type = "sensor" }))
          × (f'.errors ≡ [])
        ⊎ ((◌≡◌ {A = String} "" "") ⊎ (◌≡◌ {A = String} "sensor" ""))
          × (called ≡ none)
          × (shown f'.errors "name" ≡ some "Name is required")
          × (shown f'.errors "type" ≡ none))
device-handle_submit_example = device-handle_submit reference nameless

abbrev complete : EventForm
complete = record {
  type = "repair";
  device_id = "d1";
  name = "Fan";
  actor = "";
  description = "noisy";
  errors = [];
}

event-handle_submit_example :
    let (f', called) = Event.handle_submit reference complete in
    ((◌≢◌ {A = String} "repair" "")
      × (◌≢◌ {A = String} "d1" "")
      × (◌≢◌ {A = String} "Fan" "")
      × (called
          ≡ some (record {
            type = "repair";
            device_id = "d1";
            name = "Fan";
            actor = none;
            description = some "noisy";
          }))
      × (f'.errors ≡ []))
    ⊎ (((◌≡◌ {A = String} "repair" "") ⊎ (◌≡◌ {A = String} "d1" "") ⊎ (◌≡◌ {A = String} "Fan" ""))
        × (called ≡ none)
        × (shown f'.errors "type" ≡ none)
        × (shown f'.errors "deviceId" ≡ none)
        × (shown f'.errors "name" ≡ none))
event-handle_submit_example = event-handle_submit reference complete

abbrev issues : List Issue
issues =
    record { field = "name"; message = "too short" }
    ∷ record { field = "name"; message = "taken" }
    ∷ []
