-- ===== src/Hooks/Laws.antt =====
-- Which queries the mutations invalidate, and when queries share a key.
use asset_tracker.Prelude.{
  ◌≡◌, ◌≢◌, ◌↔◌, true, false, Option, none, some, [], ◌∷◌, String, eq_iff, arith,
}
use asset_tracker.Hooks.{
  part, Key, use_devices, use_device, use_events, use_deleted_devices, create_device_invalidates,
  update_device_invalidates, delete_device_invalidates, create_event_invalidates, Matching,
  invalidated, optional,
}

pub part-ne : (a b : String) → a ≢ b → part a ≢ part b
part-ne a b h e = h (cc)

module _ (m : Matching) where
  pub reaches : (a : String) (k : Key) → m.matches (part a ∷ []) (part a ∷ k) ≡ true
  reaches a k = ground (arith, m.matches_cons (part a) [] k, m.matches_nil k)

  pub misses : (a b : String) (k : Key) → a ≢ b → m.matches (part a ∷ []) (part b ∷ k) ≡ false
  misses a b k h = m.matches_ne (part a) (part b) [] k (part-ne a b h)

  -- Creating, updating or deleting a device makes the list of devices and every single device
  -- stale, whoever is logged in; creating an event does so with the events of every device and
  -- with the deleted devices.
  invalidated_own :
      (id other : String) (token device_id : Option String)
      → (invalidated m create_device_invalidates (use_devices token).key ≡ true)
        × (invalidated m create_device_invalidates (use_device other token).key ≡ true)
        × (invalidated m (update_device_invalidates id) (use_devices token).key ≡ true)
        × (invalidated m (update_device_invalidates id) (use_device other token).key ≡ true)
        × (invalidated m delete_device_invalidates (use_devices token).key ≡ true)
        × (invalidated m delete_device_invalidates (use_device other token).key ≡ true)
        × (invalidated m create_event_invalidates (use_events device_id token).key ≡ true)
        × (invalidated m create_event_invalidates (use_deleted_devices token).key ≡ true)
  unfolding invalidated create_device_invalidates update_device_invalidates
      delete_device_invalidates create_event_invalidates use_devices use_device use_events
      use_deleted_devices
  invalidated_own id other token device_id = ground (
    arith,
    reaches "devices" [],
    reaches "devices" (part other ∷ []),
    reaches "events" (optional device_id ∷ []),
    reaches "events" (part "device.deleted" ∷ []),
  )

  -- A deletion does not reach the deleted devices, which the devices page invalidates on its own;
  -- nor do mutations of devices and of events reach each other's queries.
  invalidated_other :
      (id : String) (token device_id : Option String)
      → (invalidated m delete_device_invalidates (use_deleted_devices token).key ≡ false)
        × (invalidated m delete_device_invalidates (use_events device_id token).key ≡ false)
        × (invalidated m create_device_invalidates (use_events device_id token).key ≡ false)
        × (invalidated m (update_device_invalidates id) (use_events device_id token).key ≡ false)
        × (invalidated m create_event_invalidates (use_devices token).key ≡ false)
        × (invalidated m create_event_invalidates (use_device id token).key ≡ false)
  unfolding invalidated create_device_invalidates update_device_invalidates
      delete_device_invalidates create_event_invalidates use_devices use_device use_events
      use_deleted_devices
  invalidated_other id token device_id = ground (
    arith,
    misses "devices" "events" (part "device.deleted" ∷ [])
        (ground (arith, eq_iff "devices" "events")),
    misses "devices" "events" (optional device_id ∷ []) (ground (arith, eq_iff "devices" "events")),
    misses "events" "devices" [] (ground (arith, eq_iff "events" "devices")),
    misses "events" "devices" (part id ∷ []) (ground (arith, eq_iff "events" "devices")),
    m.matches_ne (part "devices") (part "events") (part id ∷ []) (optional device_id ∷ [])
        (part-ne "devices" "events" (ground (arith, eq_iff "devices" "events"))),
  )

-- The list of deleted devices and the events of a device share a cache entry exactly if that
-- device's id is "device.deleted".
use_events-use_deleted_devices :
    (device_id token token' : Option String)
    → ((use_events device_id token).key ≡ (use_deleted_devices token').key)
      ↔ (device_id ≡ some "device.deleted")
unfolding use_events use_deleted_devices
use_events-use_deleted_devices none token token' = (λ h. cc, λ h. cc)
use_events-use_deleted_devices (some id) token token' = (λ h. cc, λ h. cc)
