-- ===== src/Settings/Laws.antt =====
-- What the intervals keep, and what the settings panel saves.
use asset_tracker.Prelude.{◌≡◌, refl, ◌⊎◌, inl, inr, true, false, some, String, arith, ap}
use asset_tracker.Number.{Number}
use asset_tracker.Storage.{Storage, lookup, insert, lookup-insert}
use asset_tracker.Settings.{
  Conversions, Settings, default_health, default_metrics, is_valid, read_value, mount,
  update_health_interval, update_metrics_interval,
}

read_value-is_valid :
    (c : Conversions) (key : String) (d : Number) (s : Storage)
    → is_valid d ≡ true
    → is_valid (read_value c key d s) ≡ true
unfolding read_value is_valid
read_value-is_valid c key d s h = ground arith

-- What is read from a storage in which a valid interval has just been written under a key.
module _ (c : Conversions) (ms : Number) (v : is_valid ms ≡ true) (d : Number) where
  read_value-insert :
      (key : String) (s : Storage)
      → s.denied ≡ false
      → lookup key (insert key (c.to_text ms) s.items) ≡ some (c.to_text ms)
      → read_value c key d (record s { items = insert key (c.to_text ms) s.items }) ≡ ms
  unfolding read_value is_valid
  read_value-insert key s h e = ground (arith, c.round_trip ms)

read_value_of_lookup :
    (c : Conversions) (key : String) (d : Number) (s t : Storage)
    → s.denied ≡ t.denied
    → lookup key s.items ≡ lookup key t.items
    → read_value c key d s ≡ read_value c key d t
unfolding read_value
read_value_of_lookup c key d s t h e = ground arith

module _ (c : Conversions) where
  -- The settings are what a freshly loaded page would read from the storage.
  abbrev pub IsSaved : Settings → Type 0
  IsSaved s = mount c s.storage ≡ s

  -- A session of the provider: it is mounted and then updated, with any numbers in any order. An
  -- update that throws leaves no new settings.
  pub data Reachable : Settings → Type 0 where
    mounted : (storage : Storage) → Reachable (mount c storage)
    health_updated :
        {s t : Settings} (ms : Number)
        → Reachable s
        → update_health_interval c ms s ≡ some t
        → Reachable t
    metrics_updated :
        {s t : Settings} (ms : Number)
        → Reachable s
        → update_metrics_interval c ms s ≡ some t
        → Reachable t

  mount-IsSaved : (storage : Storage) → IsSaved (mount c storage)
  unfolding mount
  mount-IsSaved storage = refl

  -- The settings after an interval was written under its key.
  written : Settings → String → Number → Storage
  written s key ms = record s.storage { items = insert key (c.to_text ms) s.storage.items }

  health-cases :
      (s t : Settings) (ms : Number)
      → update_health_interval c ms s ≡ some t
      → (t ≡ s)
        ⊎ ((is_valid ms ≡ true)
            × (s.storage.denied ≡ false)
            × (t ≡ record s { storage = written s "healthInterval" ms; health_interval = ms }))
  unfolding update_health_interval written
  health-cases s t ms e = ground arith

  metrics-cases :
      (s t : Settings) (ms : Number)
      → update_metrics_interval c ms s ≡ some t
      → (t ≡ s)
        ⊎ ((is_valid ms ≡ true)
            × (s.storage.denied ≡ false)
            × (t ≡ record s { storage = written s "metricsInterval" ms; metrics_interval = ms }))
  unfolding update_metrics_interval written
  metrics-cases s t ms e = ground arith

  -- Writing under one key gives the interval that is read back, and leaves the other's as it was.
  read-written :
      (s : Settings) (ms d d' : Number) (key other : String)
      → is_valid ms ≡ true
      → s.storage.denied ≡ false
      → lookup key (insert key (c.to_text ms) s.storage.items) ≡ some (c.to_text ms)
      → lookup other (insert key (c.to_text ms) s.storage.items) ≡ lookup other s.storage.items
      → (read_value c key d (written s key ms) ≡ ms)
        × (read_value c other d' (written s key ms) ≡ read_value c other d' s.storage)
  unfolding written
  read-written s ms d d' key other v open_storage e e' = (
    read_value-insert c ms v d key s.storage open_storage e,
    read_value_of_lookup c other d' _ s.storage refl e',
  )

  health-IsSaved :
      (s t : Settings) (ms : Number)
      → IsSaved s
      → update_health_interval c ms s ≡ some t
      → IsSaved t
  unfolding mount
  health-IsSaved s t ms h e = elim (health-cases s t ms e) [
    | inl same ↦ rw same h
    | inr (v, o, changed) ↦
        let (own, other) =
          read-written s ms default_health default_metrics "healthInterval" "metricsInterval" v o
            (lookup-insert "healthInterval" "healthInterval" _ s.storage.items)
            (lookup-insert "healthInterval" "metricsInterval" _ s.storage.items) in
        rw changed (ground arith)
  ]

  metrics-IsSaved :
      (s t : Settings) (ms : Number)
      → IsSaved s
      → update_metrics_interval c ms s ≡ some t
      → IsSaved t
  unfolding mount
  metrics-IsSaved s t ms h e = elim (metrics-cases s t ms e) [
    | inl same ↦ rw same h
    | inr (v, o, changed) ↦
        let (own, other) =
          read-written s ms default_metrics default_health "metricsInterval" "healthInterval" v o
            (lookup-insert "metricsInterval" "metricsInterval" _ s.storage.items)
            (lookup-insert "metricsInterval" "healthInterval" _ s.storage.items) in
        rw changed (ground arith)
  ]

  IsSaved-of-Reachable : {s : Settings} → Reachable s → IsSaved s
  IsSaved-of-Reachable (mounted storage) = mount-IsSaved storage
  IsSaved-of-Reachable (health_updated {s} {t} ms r e) =
      health-IsSaved s t ms (IsSaved-of-Reachable r) e
  IsSaved-of-Reachable (metrics_updated {s} {t} ms r e) =
      metrics-IsSaved s t ms (IsSaved-of-Reachable r) e

  mount-is_valid :
      (storage : Storage)
      → (is_valid (mount c storage).health_interval ≡ true)
        × (is_valid (mount c storage).metrics_interval ≡ true)
  unfolding mount
  mount-is_valid storage = (
    read_value-is_valid c "healthInterval" default_health storage (unfold is_valid in refl),
    read_value-is_valid c "metricsInterval" default_metrics storage (unfold is_valid in refl),
  )

  -- Whatever the storage holds, and whatever numbers the intervals were updated with: both
  -- intervals are finite and positive, and a page that is loaded afresh from the storage has the
  -- same settings.
  pub Reachable-IsSaved :
      {s : Settings}
      → Reachable s
      → IsSaved s × (is_valid s.health_interval ≡ true) × (is_valid s.metrics_interval ≡ true)
  Reachable-IsSaved {s} r =
      let h = IsSaved-of-Reachable r in
      let (v, w) = mount-is_valid s.storage in
      (h, rw (ap (λ t. t.health_interval) h) at v, rw (ap (λ t. t.metrics_interval) h) at w)
