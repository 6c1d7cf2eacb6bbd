-- ===== src/Api/Metrics.antt =====
-- The metrics endpoints, web-ui/src/lib/api/metrics.ts.
use Prim.Native.String
use asset_tracker.Prelude.{ℕ, not, Option, none, some, List, [], String, if◌then◌else◌}
use asset_tracker.Api.Http.{
  Request, Reply, network_failure, response, Fetch, api_error, type_error, resolved, rejected, Call,
  is_ok,
}
use asset_tracker.Api.Health.{Service, go, node, service_name, get_request}

pub record RequestTrace : Type 0 where
  pub method : String
  pub path : String
  pub status : ℕ
  pub duration_ms : ℕ
  pub timestamp : String

pub record MetricsDetail : Type 0 where
  pub requests_total : ℕ
  pub errors_total : ℕ
  pub recent : List RequestTrace

abbrev metrics_url : Service → String
metrics_url go = "/api/go/metrics"
metrics_url node = "/api/node/metrics"

abbrev detail_map : Service → String
detail_map go = "/api/go/metrics/requests"
detail_map node = "/api/node/metrics/requests"

abbrev settle : {B : Type 0} → String → Request → Reply B → Call B B
settle message r network_failure = record {
  sent = r;
  dispatched = [];
  settled = rejected (type_error message);
}
settle message r (response status none) = record {
  sent = r;
  dispatched = [];
  settled = rejected (type_error message);
}
settle message r (response status (some b)) = record {
  sent = r;
  dispatched = [];
  settled = if not (is_ok status) then rejected (api_error status b) else resolved b;
}

abbrev failed_to_fetch : Service → String → String
failed_to_fetch s what = String.◌++◌ "Failed to fetch " (String.◌++◌ (service_name s) what)

unfoldable pub get_metrics : {B : Type 0} → Fetch B → Service → Call B B
get_metrics fetch s =
    let r = get_request (metrics_url s) in settle (failed_to_fetch s " metrics") r (fetch r)

-- `show` is `String(limit)`. The abort signal is left out: no caller passes one.
abbrev detail_url : (ℕ → String) → Service → Option ℕ → String
detail_url show s none = detail_map s
detail_url show s (some n) = String.◌++◌ (detail_map s) (String.◌++◌ "?limit=" (show n))

unfoldable pub get_metrics_detail :
    {B : Type 0} → Fetch B → (ℕ → String) → Service → Option ℕ → Call B B
get_metrics_detail fetch show s limit =
    let r = get_request (detail_url show s limit) in
    settle (failed_to_fetch s " metrics detail") r (fetch r)
