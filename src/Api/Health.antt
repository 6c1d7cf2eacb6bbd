-- ===== src/Api/Health.antt =====
-- The health endpoints, web-ui/src/lib/api/health.ts, and what it shares with metrics.ts: the
-- name of a service and a read that turns the errors of `fetch` into a `TypeError`.
use Prim.Native.String
use asset_tracker.Prelude.{not, none, some, [], String, if◌then◌else◌}
use asset_tracker.Api.Http.{
  get, Request, Reply, network_failure, response, Fetch, api_error, type_error, resolved, rejected,
  Call, is_ok,
}

pub data Service : Type 0 where
  go node : Service

abbrev pub service_name : Service → String
service_name go = "go"
service_name node = "node"

abbrev pub get_request : String → Request
get_request url = record { method = get; url = url; headers = []; body = none }

abbrev health_url : Service → String
health_url go = "/api/go/health/ready"
health_url node = "/api/node/health/ready"

abbrev failed_to_fetch : Service → String
failed_to_fetch s = String.◌++◌ "Failed to fetch " (String.◌++◌ (service_name s) " health")

abbrev settle : {B : Type 0} → Service → Request → Reply B → Call B B
settle s r network_failure = record {
  sent = r;
  dispatched = [];
  settled = rejected (type_error (failed_to_fetch s));
}
settle s r (response status none) = record {
  sent = r;
  dispatched = [];
  settled = rejected (type_error (failed_to_fetch s));
}
settle s r (response status (some b)) = record {
  sent = r;
  dispatched = [];
  settled = if not (is_ok status) then rejected (api_error status b) else resolved b;
}

unfoldable pub get_health : {B : Type 0} → Fetch B → Service → Call B B
get_health fetch s = let r = get_request (health_url s) in settle s r (fetch r)
