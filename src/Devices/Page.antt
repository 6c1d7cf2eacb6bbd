-- ===== src/Devices/Page.antt =====
-- The devices page, web-ui/src/routes/devices.tsx: its state and its handlers. An asynchronous
-- deletion is a task that goes on from one `await` of `handleDeleteDevice` to the next, so that
-- several can be under way at once.
use asset_tracker.Prelude.{
  ℕ, zero, suc, Bool, true, false, not, Option, none, some, List, [], ◌∷◌, ◌++◌, String, ◌==◌, find,
  any, truthy, if◌then◌else◌,
}
use asset_tracker.Forms.Device.{Device}

pub record SelectedDevice : Type 0 where
  pub id : String
  pub name : String

-- What a deletion waits for: its request, the five seconds after it, or the invalidated queries.
pub data Phase : Type 0 where
  deleting waiting invalidating : Phase

pub record DevicesPage : Type 0 where
  pub show_deleted : Bool
  pub is_refreshing_deleted : Bool
  pub delete_target : Option String
  pub show_create_modal : Bool
  pub editing_device : Option SelectedDevice
  pub tasks : List Phase

unfoldable pub mount_page : DevicesPage
mount_page = record {
  show_deleted = false;
  is_refreshing_deleted = false;
  delete_target = none;
  show_create_modal = false;
  editing_device = none;
  tasks = [];
}

-- `resolves k` and `rejects k` settle what the k-th deletion under way waits for. `created`,
-- `updated` and their failures settle the mutations of the two form modals.
pub data Event : Type 0 where
  opens_create closes_create created create_failed : Event
  closes_edit updated update_failed : Event
  edits picks_delete navigates : String → Event
  cancels_delete confirms_delete toggles_deleted retries ignored : Event
  resolves rejects : ℕ → Event

abbrev pub find_device : String → List Device → Option Device
find_device id ds = find (λ d. d.id == id) ds

abbrev pub phase_at : ℕ → List Phase → Option Phase
phase_at k [] = none
phase_at zero (t ∷ ts) = some t
phase_at (suc k) (t ∷ ts) = phase_at k ts

abbrev pub set_phase : ℕ → Phase → List Phase → List Phase
set_phase k p [] = []
set_phase zero p (t ∷ ts) = p ∷ ts
set_phase (suc k) p (t ∷ ts) = t ∷ set_phase k p ts

abbrev pub remove_at : ℕ → List Phase → List Phase
remove_at k [] = []
remove_at zero (t ∷ ts) = ts
remove_at (suc k) (t ∷ ts) = t ∷ remove_at k ts

unfoldable pub handle_edit : List Device → String → DevicesPage → DevicesPage
handle_edit ds id s = elim (find_device id ds) [
  | none ↦ s
  | some d ↦ record s { editing_device = some (record { id = d.id; name = d.name }) }
]

-- `handleDeleteDevice` up to its first `await`, behind the test of `onConfirm`.
unfoldable pub confirm_delete : DevicesPage → DevicesPage
confirm_delete s = elim s.delete_target [
  | none ↦ s
  | some id ↦
      if truthy id
      then record s { is_refreshing_deleted = true; tasks = s.tasks ++ deleting ∷ [] }
      else s
]

-- `handleDeleteDevice` from an `await` that resolves; the last one is followed by `finally`.
unfoldable pub resolve : ℕ → Option Phase → DevicesPage → DevicesPage
resolve k none s = s
resolve k (some deleting) s = record s { delete_target = none; tasks = set_phase k waiting s.tasks }
resolve k (some waiting) s = record s { tasks = set_phase k invalidating s.tasks }
resolve k (some invalidating) s = record s {
  is_refreshing_deleted = false;
  tasks = remove_at k s.tasks;
}

-- From an `await` that rejects: `catch`, then `finally`. The timer does not reject.
unfoldable pub reject : ℕ → Option Phase → DevicesPage → DevicesPage
reject k none s = s
reject k (some waiting) s = s
reject k (some p) s = record s {
  delete_target = none;
  is_refreshing_deleted = false;
  tasks = remove_at k s.tasks;
}

-- `deleteDevice.isPending`
abbrev pub is_deleting : Phase → Bool
is_deleting deleting = true
is_deleting _ = false

abbrev pub is_delete_pending : DevicesPage → Bool
is_delete_pending s = any is_deleting s.tasks

unfoldable pub update : List Device → Event → DevicesPage → DevicesPage
unfolding handle_edit confirm_delete resolve reject
update ds opens_create s = record s { show_create_modal = true }
update ds closes_create s = record s { show_create_modal = false }
update ds created s = record s { show_create_modal = false }
update ds (edits id) s = handle_edit ds id s
update ds closes_edit s = record s { editing_device = none }
update ds updated s = record s { editing_device = none }
update ds (picks_delete id) s = record s { delete_target = some id }
update ds cancels_delete s = record s { delete_target = none }
update ds confirms_delete s = confirm_delete s
update ds toggles_deleted s = record s { show_deleted = not s.show_deleted }
update ds (resolves k) s = resolve k (phase_at k s.tasks) s
update ds (rejects k) s = reject k (phase_at k s.tasks) s
update ds _ s = s
