-- ===== src/Settings.antt =====
-- The polling intervals: web-ui/src/context/SettingsContext.tsx. `Number(text)` and
-- `String(number)` are JavaScript's: a parameter.
pub mod Panel
pub mod Laws
pub mod Saving
use asset_tracker.Prelude.{ℕ, ◌≡◌, Bool, true, ◌&&◌, Option, none, some, String, if◌then◌else◌}
use asset_tracker.Number.{Number, whole, is_finite, lt}
use asset_tracker.Storage.{Storage, get_item, set_item}

-- JavaScript's conversions; what is written for a finite number reads back as that number.
pub record Conversions : Type 0 where
  pub to_number : String → Number
  pub to_text : Number → String
  pub round_trip : (n : Number) → is_finite n ≡ true → to_number (to_text n) ≡ n

abbrev pub default_health : Number
default_health = whole 2000

abbrev pub default_metrics : Number
default_metrics = whole 5000

unfoldable pub is_valid : Number → Bool
is_valid n = is_finite n && lt (whole 0) n

-- `none` from the storage is the exception that the `catch` answers.
unfoldable pub read_value : Conversions → String → Number → Storage → Number
unfolding get_item
read_value c key fallback storage = elim (get_item key storage) [
  | none ↦ fallback
  | some item ↦ elim item [
    | none ↦ fallback
    | some raw ↦
        let parsed = c.to_number raw in
        if is_finite parsed && lt (whole 0) parsed then parsed else fallback
  ]
]

pub record Settings : Type 0 where
  pub health_interval : Number
  pub metrics_interval : Number
  pub storage : Storage

unfoldable pub mount : Conversions → Storage → Settings
unfolding read_value
mount c storage = record {
  health_interval = read_value c "healthInterval" default_health storage;
  metrics_interval = read_value c "metricsInterval" default_metrics storage;
  storage = storage;
}

-- The updates; where writing to the storage throws, the new interval is not set, and the
-- exception reaches the caller: `none`.
unfoldable pub update_health_interval : Conversions → Number → Settings → Option Settings
unfolding is_valid set_item
update_health_interval c ms s =
    if is_valid ms
    then elim (set_item "healthInterval" (c.to_text ms) s.storage) [
      | none ↦ none
      | some storage ↦ some (record s { storage = storage; health_interval = ms })
    ]
    else some s

unfoldable pub update_metrics_interval : Conversions → Number → Settings → Option Settings
unfolding is_valid set_item
update_metrics_interval c ms s =
    if is_valid ms
    then elim (set_item "metricsInterval" (c.to_text ms) s.storage) [
      | none ↦ none
      | some storage ↦ some (record s { storage = storage; metrics_interval = ms })
    ]
    else some s
