-- ===== src/System/Deletions.antt =====
-- The deleted devices after a topic's messages: node-service's Kafka consumer stores what
-- `getDeletedDevices` of web-ui/src/lib/api/events.ts then asks for.
use mathlib.Core.List.{Perm, mem-append_right}
use mathlib.Core.Logic.Or
use mathlib.Core.List
use mathlib.Core.List.Perm
use asset_tracker.Prelude.{Bool, List, [], ◌∷◌}
use asset_tracker.Api.Events
use asset_tracker.Hooks.{Key, part}
use asset_tracker.Hooks.Cache.{QueryCache, invalidate_all}
use asset_tracker.Node.Value.{Value}
use asset_tracker.Node.Event.{Event}
use asset_tracker.Node.Repository.{equals}
use asset_tracker.Node.Server.{Server}
use asset_tracker.System.Wire.{Wire}

-- The listing of the deleted devices shows these.
abbrev pub is_deletion : Event → Bool
is_deletion e = equals "device.deleted" e.type

-- The key that `handleDeleteDevice` of web-ui/src/routes/devices.tsx invalidates at its end.
abbrev pub deleted_devices_key : Key
deleted_devices_key = part "events" ∷ part "device.deleted" ∷ []

module _ {C : Type 0} (l : QueryCache C) where
  -- What the page does to the cache after the five seconds.
  unfoldable pub refresh_deleted : C → C
  refresh_deleted c = invalidate_all l (deleted_devices_key ∷ []) c
