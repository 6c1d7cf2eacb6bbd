-- ===== src/Hooks.antt =====
-- The queries and mutations of web-ui/src/hooks: use-devices.ts, use-events.ts, use-health.ts and
-- use-metrics.ts. A query is described by its key, whether it is enabled, its times in milliseconds
-- and how often it is tried again, each `none` where it is left to the defaults of
-- web-ui/src/App.tsx; a mutation by the keys that its success invalidates. The query library is a
-- parameter: which keys an invalidated key reaches.
pub mod Laws
pub mod Calls
pub mod Cache
pub mod CacheLaws
use asset_tracker.Prelude.{
  ℕ, ◌*◌, ◌≡◌, ◌≢◌, Bool, true, false, ◌&&◌, Option, none, some, List, [], ◌∷◌, String, truthy,
  or_else, any, if◌then◌else◌,
}
use asset_tracker.Api.Health.{Service, service_name}

-- A part of a key; `undefined` where an optional argument is left out.
pub data Part : Type 0 where
  part : String → Part
  undefined : Part

abbrev pub Key : Type 0
Key = List Part

pub record QueryOptions : Type 0 where
  pub key : Key
  pub enabled : Bool
  pub stale_time : Option ℕ
  pub refetch_interval : Option ℕ
  pub retry : Option ℕ

abbrev holds : Option String → Bool
holds none = false
holds (some s) = truthy s

abbrev pub optional : Option String → Part
optional none = undefined
optional (some s) = part s

unfoldable pub use_devices : (token : Option String) → QueryOptions
use_devices token = record {
  key = part "devices" ∷ [];
  enabled = holds token;
  stale_time = some 30000;
  refetch_interval = none;
  retry = none;
}

unfoldable pub use_device : (id : String) → (token : Option String) → QueryOptions
use_device id token = record {
  key = part "devices" ∷ part id ∷ [];
  enabled = holds token && truthy id;
  stale_time = some 30000;
  refetch_interval = none;
  retry = none;
}

unfoldable pub use_events : (device_id : Option String) → (token : Option String) → QueryOptions
use_events device_id token = record {
  key = part "events" ∷ optional device_id ∷ [];
  enabled = holds token && holds device_id;
  stale_time = some 30000;
  refetch_interval = none;
  retry = none;
}

unfoldable pub use_deleted_devices : (token : Option String) → QueryOptions
use_deleted_devices token = record {
  key = part "events" ∷ part "device.deleted" ∷ [];
  enabled = holds token;
  stale_time = some 30000;
  refetch_interval = none;
  retry = none;
}

-- The defaults of the query client.
abbrev pub default_stale_time : ℕ
default_stale_time = 5 * 60 * 1000

abbrev pub default_retry : ℕ
default_retry = 1

-- The time for which an answer counts as fresh, and the tries after one that failed.
abbrev pub stale_time_of : QueryOptions → ℕ
stale_time_of q = or_else q.stale_time default_stale_time

abbrev pub retries_of : QueryOptions → ℕ
retries_of q = or_else q.retry default_retry

-- The three polled queries, which are not tried again; an interval that is left out is the default.
unfoldable pub use_health : Service → (refetch_interval : Option ℕ) → QueryOptions
use_health s i = record {
  key = part "health" ∷ part (service_name s) ∷ [];
  enabled = true;
  stale_time = none;
  refetch_interval = some (or_else i 30000);
  retry = some 0;
}

unfoldable pub use_metrics : Service → (refetch_interval : Option ℕ) → QueryOptions
use_metrics s i = record {
  key = part "metrics" ∷ part (service_name s) ∷ [];
  enabled = true;
  stale_time = some 60000;
  refetch_interval = some (or_else i 30000);
  retry = some 0;
}

unfoldable pub use_metrics_detail : Service → (refetch_interval : Option ℕ) → QueryOptions
use_metrics_detail s i = record {
  key = part "metrics-detail" ∷ part (service_name s) ∷ [];
  enabled = true;
  stale_time = some 10000;
  refetch_interval = some (or_else i 10000);
  retry = some 0;
}

-- The keys that the success of each mutation invalidates.
unfoldable pub create_device_invalidates : List Key
create_device_invalidates = (part "devices" ∷ []) ∷ []

unfoldable pub update_device_invalidates : (id : String) → List Key
update_device_invalidates id = (part "devices" ∷ []) ∷ (part "devices" ∷ part id ∷ []) ∷ []

unfoldable pub delete_device_invalidates : List Key
delete_device_invalidates = (part "devices" ∷ []) ∷ []

unfoldable pub create_event_invalidates : List Key
create_event_invalidates = (part "events" ∷ []) ∷ []

-- The query library: `matches filter key` says whether invalidating the one reaches the other.
-- As documented, a key is reached exactly by its own beginnings.
pub record Matching : Type 0 where
  pub matches : Key → Key → Bool
  pub matches_nil : (k : Key) → matches [] k ≡ true
  pub matches_cons : (p : Part) (f k : Key) → matches (p ∷ f) (p ∷ k) ≡ matches f k
  pub matches_ne : (p q : Part) (f k : Key) → p ≢ q → matches (p ∷ f) (q ∷ k) ≡ false
  pub matches_longer : (p : Part) (f : Key) → matches (p ∷ f) [] ≡ false

unfoldable pub invalidated : Matching → List Key → Key → Bool
invalidated m filters key = any (λ f. m.matches f key) filters
