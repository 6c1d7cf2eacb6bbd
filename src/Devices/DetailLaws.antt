-- ===== src/Devices/DetailLaws.antt =====
-- Creating an event on the page of a device, and what that page never shows.
use asset_tracker.Prelude.{◌≡◌, refl, false, String, arith}
use asset_tracker.Forms.{Zod}
use asset_tracker.Devices.Detail.{
  DetailPage, mount_detail, Event, update, handle_create_event, event_created, event_failed,
}

-- The states of the page: its handlers, in any order, with any results of the requests.
pub data Reachable (z : Zod) (id : String) : DetailPage → Type 0 where
  mounted : Reachable z id mount_detail
  handled : {s : DetailPage} (e : Event) → Reachable z id s → Reachable z id (update e s)
  sent : {s : DetailPage} → Reachable z id s → Reachable z id (handle_create_event z id s).0
  created : {s : DetailPage} → Reachable z id s → Reachable z id (event_created s)
  failed : {s : DetailPage} → Reachable z id s → Reachable z id (event_failed s)

update_hidden :
    (e : Event) (s : DetailPage)
    → s.is_editing ≡ false
    → s.show_delete_dialog ≡ false
    → ((update e s).is_editing ≡ false) × ((update e s).show_delete_dialog ≡ false)
unfolding update
update_hidden e s h k = ground arith

-- No handler opens the editor or the delete dialog of the page: in every state that it reaches,
-- both are closed.
Reachable-closed :
    (z : Zod) (id : String) {s : DetailPage}
    → Reachable z id s
    → (s.is_editing ≡ false) × (s.show_delete_dialog ≡ false)
unfolding mount_detail handle_create_event event_created event_failed
Reachable-closed z id mounted = (refl, refl)
Reachable-closed z id (handled {s} e r) =
    let (h, k) = Reachable-closed z id r in update_hidden e s h k
Reachable-closed z id (sent r) = let (h, k) = Reachable-closed z id r in ground arith
Reachable-closed z id (created r) = Reachable-closed z id r
Reachable-closed z id (failed r) = Reachable-closed z id r
