-- ===== src/Devices/PageLaws.antt =====
-- Deletions on the devices page: one alone, any number in any order, and two that overlap.
use asset_tracker.Prelude.{
  ℕ, zero, suc, ◌+◌, ◌≤◌, ◌≡◌, refl, ◌≢◌, Bool, true, false, none, inl, inr, Bool-cases, some, List,
  [], ◌∷◌, ◌++◌, String, ◌==◌, eq_iff, arith, any, find_sound,
}
use asset_tracker.Forms.Device.{Device}
use asset_tracker.View.{clicks}
use asset_tracker.Shared.Modal.{modal}
use asset_tracker.Devices.{delete_dialog, handle_close}
use asset_tracker.Devices.PageView.{page_dialog}
use asset_tracker.Devices.Page.{
  Phase, deleting, waiting, invalidating, DevicesPage, mount_page, Event, edits, confirms_delete,
  resolves, rejects, find_device, set_phase, remove_at, is_deleting, is_delete_pending, update,
}

-- A deletion with no other under way. While its request runs the dialog is pending; once the
-- request resolves the dialog is closed; the refreshing mark stands until the deleted devices have
-- been invalidated, and the page is then as before, with the dialog closed. If the request or the
-- invalidation rejects, the page comes to the same end at once.
update-confirms_delete :
    (ds : List Device) (s : DevicesPage) (id : String)
    → s.tasks ≡ []
    → s.delete_target ≡ some id
    → id ≢ ""
    → let s1 = update ds confirms_delete s in
      let s2 = update ds (resolves 0) s1 in
      let s3 = update ds (resolves 0) s2 in
      let end' = record s { delete_target = none; is_refreshing_deleted = false } in
      (is_delete_pending s1 ≡ true)
      × (s1.is_refreshing_deleted ≡ true)
      × (s1.delete_target ≡ some id)
      × (is_delete_pending s2 ≡ false)
      × (s2.is_refreshing_deleted ≡ true)
      × (s2.delete_target ≡ none)
      × (s3.is_refreshing_deleted ≡ true)
      × (update ds (resolves 0) s3 ≡ end')
      × (update ds (rejects 0) s1 ≡ end')
      × (update ds (rejects 0) s3 ≡ end')
unfolding update
update-confirms_delete ds s id t d full = ground (arith, eq_iff id "")

abbrev count_deleting : List Phase → ℕ
count_deleting [] = 0
count_deleting (deleting ∷ ts) = suc (count_deleting ts)
count_deleting (waiting ∷ ts) = count_deleting ts
count_deleting (invalidating ∷ ts) = count_deleting ts

count-set_phase :
    (k : ℕ) (p : Phase) (ts : List Phase)
    → p ≢ deleting
    → count_deleting (set_phase k p ts) ≤ count_deleting ts
count-set_phase k p [] h = omega arith
count-set_phase zero p (t ∷ ts) h = ground arith
count-set_phase (suc k) p (t ∷ ts) h = ground (arith, count-set_phase k p ts)

count-remove_at : (k : ℕ) (ts : List Phase) → count_deleting (remove_at k ts) ≤ count_deleting ts
count-remove_at k [] = omega arith
count-remove_at zero (t ∷ ts) = ground arith
count-remove_at (suc k) (t ∷ ts) = ground (arith, count-remove_at k ts)

count-append :
    (ts us : List Phase) → count_deleting (ts ++ us) ≡ count_deleting ts + count_deleting us
count-append [] us = omega arith
count-append (t ∷ ts) us = ground (arith, count-append ts us)

count_of_idle : (ts : List Phase) → any is_deleting ts ≡ false → count_deleting ts ≡ 0
count_of_idle [] h = refl
count_of_idle (t ∷ ts) h = ground (arith, count_of_idle ts)

set_phase-empty : (k : ℕ) (p : Phase) (ts : List Phase) → set_phase k p ts ≡ [] → ts ≡ []
set_phase-empty k p [] h = refl
set_phase-empty zero p (t ∷ ts) h = cc
set_phase-empty (suc k) p (t ∷ ts) h = cc

append-ne-nil : (ts : List Phase) (t : Phase) → ts ++ t ∷ [] ≢ []
append-ne-nil [] t h = cc
append-ne-nil (u ∷ ts) t h = cc

abbrev pub is_confirm : Event → Bool
is_confirm confirms_delete = true
is_confirm _ = false

-- Whether the dialog, as the page shows it, can raise the event that confirms a deletion.
abbrev pub offers_confirm : List Device → DevicesPage → Bool
offers_confirm ds s = any is_confirm (clicks (page_dialog (λ e. e) ds s))

-- While a deletion is pending both buttons of the dialog are disabled, and closing it does nothing.
offers_confirm_lem :
    (ds : List Device) (s : DevicesPage) → offers_confirm ds s ≡ true → is_delete_pending s ≡ false
unfolding page_dialog delete_dialog modal handle_close
offers_confirm_lem ds s h = elim (Bool-cases (is_delete_pending s)) [
  | inr idle ↦ idle
  | inl busy ↦ absurd (ground arith)
]

-- A deletion is confirmed by a click on what the dialog offers.
pub data Step (ds : List Device) (s : DevicesPage) : DevicesPage → Type 0 where
  acts : (e : Event) → e ≢ confirms_delete → Step ds s (update ds e s)
  confirms : offers_confirm ds s ≡ true → Step ds s (update ds confirms_delete s)

pub data Reachable (ds : List Device) : DevicesPage → Type 0 where
  mounted : Reachable ds mount_page
  next : {s t : DevicesPage} → Reachable ds s → Step ds s t → Reachable ds t

pub record IsOrderly (s : DevicesPage) : Type 0 where
  pub single : count_deleting s.tasks ≤ 1
  pub quiet : s.tasks ≡ [] → s.is_refreshing_deleted ≡ false

Step-IsOrderly : (ds : List Device) {s t : DevicesPage} → Step ds s t → IsOrderly s → IsOrderly t
unfolding update
Step-IsOrderly ds {s} (acts (resolves k) n) h = ground (
  arith,
  count-set_phase k waiting s.tasks,
  count-set_phase k invalidating s.tasks,
  count-remove_at k s.tasks,
  set_phase-empty k waiting s.tasks,
  set_phase-empty k invalidating s.tasks,
)
Step-IsOrderly ds {s} (acts (rejects k) n) h = ground (arith, count-remove_at k s.tasks)
Step-IsOrderly ds {s} (acts confirms_delete n) h = absurd (n refl)
Step-IsOrderly ds {s} (acts (edits id) n) h = ground arith
Step-IsOrderly ds {s} (acts e n) h = record { single = h.single; quiet = h.quiet }
Step-IsOrderly ds {s} (confirms offered) h = ground (
  arith,
  offers_confirm_lem ds s offered,
  count_of_idle s.tasks,
  count-append s.tasks (deleting ∷ []),
  append-ne-nil s.tasks deleting,
)

-- In every state that the page reaches, when deletions are confirmed in its dialog, at most one deletion request is pending, and without a
-- deletion under way there is no refreshing mark.
pub Reachable-IsOrderly : (ds : List Device) {s : DevicesPage} → Reachable ds s → IsOrderly s
unfolding mount_page
Reachable-IsOrderly ds mounted = ground arith
Reachable-IsOrderly ds (next r st) = Step-IsOrderly ds st (Reachable-IsOrderly ds r)

-- Two deletions that overlap: when the first one ends, while the second is still under way, the
-- refreshing mark goes away, and it stays away until the second ends.
refreshing_cleared_early :
    (ds : List Device) (s : DevicesPage) (p : Phase)
    → s.tasks ≡ invalidating ∷ p ∷ []
    → let s' = update ds (resolves 0) s in
      let s'' = update ds (resolves 0) s' in
      (s'.tasks ≡ p ∷ []) × (s'.is_refreshing_deleted ≡ false) × (s''.is_refreshing_deleted ≡ false)
unfolding update
refreshing_cleared_early ds s p t = ground arith

-- Asking to edit opens the editor exactly for a device of the list, and for the one with the id
-- that was asked for; otherwise nothing changes.
pub update-edits :
    (ds : List Device) (id : String) (s : DevicesPage)
    → ((d : Device)
        → find_device id ds ≡ some d
        → (d.id ≡ id)
          × (update ds (edits id) s
              ≡ record s { editing_device = some (record { id = id; name = d.name }) }))
      × (find_device id ds ≡ none → update ds (edits id) s ≡ s)
unfolding update
update-edits ds id s = (
  λ d e.
      let same = (eq_iff d.id id).0 (find_sound (λ d. d.id == id) ds e) in
      (same, ground (arith, e, same)),
  λ e. ground arith,
)
