-- ===== src/Health.antt =====
-- The health of a service: web-ui/src/lib/utils/health-status.ts and the choice of the worst
-- status in web-ui/src/components/layout/LiveMetrics.tsx. `lower` is `toLowerCase`.
pub mod Laws
pub mod Live
pub mod LiveLaws
pub mod Cards
pub mod CardsLaws
use asset_tracker.Prelude.{
  ◌≡◌, Bool, true, false, not, ◌&&◌, ◌||◌, Option, none, some, List, [], ◌∷◌, String, ◌==◌,
  includes, if◌then◌else◌, find, or_else, is_some,
}
use asset_tracker.Query.{Thrown, type_error, object, primitive}

pub data HealthStatus : Type 0 where
  healthy offline unhealthy stale : HealthStatus

abbrev pub same_status : HealthStatus → HealthStatus → Bool
same_status healthy healthy = true
same_status offline offline = true
same_status unhealthy unhealthy = true
same_status stale stale = true
same_status _ _ = false

unfoldable pub is_fetch_error_message : (String → String) → Thrown → Bool
is_fetch_error_message lower primitive = false
is_fetch_error_message lower (object none) = false
is_fetch_error_message lower (object (some m)) = includes (lower m) "fetch"
is_fetch_error_message lower (type_error m) = includes (lower m) "fetch"

abbrev is_type_error : Thrown → Bool
is_type_error (type_error m) = true
is_type_error _ = false

abbrev is_status_ok : Option String → Bool
is_status_ok none = false
is_status_ok (some s) = s == "ok"

-- `content` is the `status` of the data, if there is data.
unfoldable pub classify_health :
    (String → String) → (is_error : Bool) → (content : Option String) → Thrown → HealthStatus
classify_health lower is_error content error =
    if not is_error && is_status_ok content
    then healthy
    else if is_error
    then if is_type_error error
      then offline
      else if is_fetch_error_message lower error
      then offline
      else if is_some content
      then stale
      else unhealthy
    else unhealthy

abbrev pub priority_order : List HealthStatus
priority_order = offline ∷ unhealthy ∷ stale ∷ healthy ∷ []

unfoldable pub worst_status : HealthStatus → HealthStatus → HealthStatus
worst_status go node =
    or_else (find (λ s. same_status go s || same_status node s) priority_order) healthy
