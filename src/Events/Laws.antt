-- ===== src/Events/Laws.antt =====
-- What the views of events show, and what the events page asks for.
use asset_tracker.Prelude.{
  ◌≡◌, refl, ◌≢◌, ◌↔◌, true, false, Option, none, some, String, eq_iff, arith,
}
use asset_tracker.Events.Page.{
  EventsPage, cancels_form, submitted, created, create_failed, update, events_query,
}

-- The events of a device are fetched exactly with a token that is not empty and a device that is
-- selected, and then for that device.
events_query_iff :
    (token : Option String) (s : EventsPage)
    → ((events_query token s).1 ≡ true) ↔ (
        (t : String) × (token ≡ some t)
        × (t ≢ "")
        × (s.selected_device_id ≢ "")
        × ((events_query token s).0 ≡ some s.selected_device_id))
unfolding events_query
events_query_iff none s = (λ h. absurd (ground arith), λ h. cc)
events_query_iff (some t) s = (
  λ h. (
    t,
    refl,
    ground (arith, eq_iff t "", eq_iff s.selected_device_id ""),
    ground (arith, eq_iff t "", eq_iff s.selected_device_id ""),
    ground (arith, eq_iff t "", eq_iff s.selected_device_id ""),
  ),
  λ (t', e, full, picked, same). ground (arith, eq_iff t "", eq_iff s.selected_device_id ""),
)

-- A failed creation keeps the form open with its message; a new attempt clears the message before
-- it is sent, and its success closes the form without one. Cancelling closes the form and clears
-- the message. The selected device stays in every case.
pub update-create_failed :
    (s : EventsPage)
    → let failed = update create_failed (update submitted s) in
      let again = update submitted failed in
      (failed.show_form ≡ s.show_form)
      × (failed.error ≡ some "Failed to create event. Please try again.")
      × (again.error ≡ none)
      × (update created again
          ≡ record { show_form = false; error = none; selected_device_id = s.selected_device_id })
      × (update cancels_form failed ≡ update created again)
unfolding update
update-create_failed s = ground arith
