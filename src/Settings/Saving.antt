-- ===== src/Settings/Saving.antt =====
-- What "Save Intervals" does, and how the panel shows the token.
use Prim.Native.String
use asset_tracker.Prelude.{
  ℕ, zero, suc, ◌+◌, ◌-◌, ◌≤◌, ◌<◌, ◌≡◌, refl, true, false, none, some, String, arith, ◌⊎◌, ◌↔◌,
}
use asset_tracker.Number.{Number, whole}
use asset_tracker.Storage.{insert}
use text.Mathlib.TextLemmas.{nil-append, cons-append}
use asset_tracker.Settings.{
  Conversions, Settings, is_valid, mount, update_health_interval, update_metrics_interval,
}
use asset_tracker.Settings.Panel.{Panel, too_small, save_intervals, size, first, skip, masked}
use asset_tracker.Settings.Laws.{Reachable, health_updated, metrics_updated, Reachable-IsSaved}

-- An interval that the panel accepts is one that the provider accepts.
is_valid_of_large : (n : Number) → too_small n ≡ false → is_valid n ≡ true
unfolding is_valid
is_valid_of_large (whole n) h = ground arith
is_valid_of_large n h = ground arith

module _ (c : Conversions) where
  health_open :
      (s : Settings) (ms : Number)
      → too_small ms ≡ false
      → s.storage.denied ≡ false
      → (t : Settings) × (update_health_interval c ms s ≡ some t)
        × (t.storage.denied ≡ false)
        × (t.health_interval ≡ ms)
  unfolding update_health_interval
  health_open s ms v o = (
    record s {
      storage = record s.storage { items = insert "healthInterval" (c.to_text ms) s.storage.items };
      health_interval = ms;
    },
    ground (arith, is_valid_of_large ms v),
    o,
    refl,
  )

  metrics_open :
      (s : Settings) (ms : Number)
      → too_small ms ≡ false
      → s.storage.denied ≡ false
      → (t : Settings) × (update_metrics_interval c ms s ≡ some t)
        × (t.health_interval ≡ s.health_interval)
        × (t.metrics_interval ≡ ms)
  unfolding update_metrics_interval
  metrics_open s ms v o = (
    record s {
      storage = record s.storage {
        items = insert "metricsInterval" (c.to_text ms) s.storage.items;
      };
      metrics_interval = ms;
    },
    ground (arith, is_valid_of_large ms v),
    refl,
    refl,
  )

  -- Saving two intervals that are finite and at least 1000, with an open storage: both become the
  -- provider's, both errors are cleared, the success message is shown, and a page that is loaded
  -- afresh starts with the same two intervals.
  pub save_intervals-mount :
      (p : Panel) (s : Settings)
      → Reachable c s
      → s.storage.denied ≡ false
      → too_small p.edit_health ≡ false
      → too_small p.edit_metrics ≡ false
      → let (p', s') = save_intervals c p s in
        (s'.health_interval ≡ p.edit_health)
        × (s'.metrics_interval ≡ p.edit_metrics)
        × (mount c s'.storage ≡ s')
        × (p'.health_error ≡ none)
        × (p'.metrics_error ≡ none)
        × (p'.saved ≡ true)
  unfolding save_intervals
  save_intervals-mount p s r o h m =
      let (t, et, ot, ht) = health_open s p.edit_health h o in
      let (u, eu, hu, mu) = metrics_open t p.edit_metrics m ot in
      let kept =
        (Reachable-IsSaved c
          (metrics_updated p.edit_metrics (health_updated p.edit_health r et) eu)).0 in
      ground arith

-- Saving when an interval is too small or not finite changes neither the provider nor the storage
-- and shows no success; the error stands exactly at each field that is at fault.
save_intervals_refused :
    (c : Conversions) (p : Panel) (s : Settings)
    → (too_small p.edit_health ≡ true) ⊎ (too_small p.edit_metrics ≡ true)
    → let (p', s') = save_intervals c p s in
      (s' ≡ s)
      × (p'.saved ≡ p.saved)
      × ((p'.health_error ≡ some "Minimum 1000ms") ↔ (too_small p.edit_health ≡ true))
      × ((p'.health_error ≡ none) ↔ (too_small p.edit_health ≡ false))
      × ((p'.metrics_error ≡ some "Minimum 1000ms") ↔ (too_small p.edit_metrics ≡ true))
      × ((p'.metrics_error ≡ none) ↔ (too_small p.edit_metrics ≡ false))
unfolding save_intervals
save_intervals_refused c p s h = ground arith

size-append : (s t : String) → size (String.◌++◌ s t) ≡ size s + size t
size-append String.[] t = rw nil-append (omega arith)
size-append (String.◌∷◌ c s) t = rw cons-append (omega (arith, size-append s t))

size-first : (n : ℕ) (s : String) → n ≤ size s → size (first n s) ≡ n
size-first zero s h = refl
size-first (suc n) String.[] h = absurd (omega arith)
size-first (suc n) (String.◌∷◌ c s) h = omega (arith, size-first n s (omega arith))

size-skip : (n : ℕ) (s : String) → size (skip n s) ≡ size s - n
size-skip zero s = omega arith
size-skip (suc n) String.[] = omega arith
size-skip (suc n) (String.◌∷◌ c s) = omega (arith, size-skip n s)

-- A token of more than 20 characters is shown as 13: 5 from its start, "..." and 5 from its end.
masked-size : (t : String) → 20 < size t → size (masked t) ≡ 13
unfolding masked
masked-size t h = ground (
  arith,
  size-append (first 5 t) (String.◌++◌ "..." (skip (size t - 5) t)),
  size-append "..." (skip (size t - 5) t),
  size-first 5 t,
  size-skip (size t - 5) t,
)
