-- ===== src/Node/Server.antt =====
-- The HTTP server, node-service/src/index.js, with the routes and the counting of requests. The
-- parser of URLs is a parameter; where it throws, the exception leaves the listener and ends the
-- process. The log of requests is in Logging.
pub mod Counting
pub mod Laws
use asset_tracker.Prelude.{
  ℕ, Bool, true, false, ◌&&◌, ◌||◌, not, Option, none, some, String, ◌==◌, leb, if◌then◌else◌,
}
use text.Mathlib.Text.{starts_with}
use asset_tracker.Api.Metrics.{RequestTrace}
use asset_tracker.Node.Value.{Value}
use asset_tracker.Node.Repository.{EventRepository}
use asset_tracker.Node.Reply.{Response, no_body, error}
use asset_tracker.Node.Handler.{Incoming, handle_post, handle_get}
use asset_tracker.Node.Metrics.{
  MetricsHandler, push_trace, increment_request, increment_error, handle_requests, handle_metrics,
}
use asset_tracker.Node.Health.{Ping, handle_live, handle_ready, handle_health}

-- `new URL(url, 'http://localhost')`: its path and `searchParams.get`.
pub record Url : Type 0 where
  pub pathname : String
  pub param : String → Option String

pub record Request : Type 0 where
  pub method : String
  pub url : String
  pub body : Incoming

-- What a request meets in its environment: a new UUID, the time, how the database's ping ends.
pub record Moment : Type 0 where
  pub id : String
  pub now : String
  pub ping : Ping

unfoldable pub is_infra_path : Url → Bool
is_infra_path u = starts_with u.pathname "/health" || starts_with u.pathname "/metrics"

pub record Server (Store : Type 0) : Type 0 where
  pub metrics : MetricsHandler
  pub store : Store

pub data Outcome (Store : Type 0) : Type 0 where
  crashed : Outcome Store
  replied : Response → Server Store → Outcome Store

-- Only business traffic is counted.
unfoldable pub count_request : Url → MetricsHandler → MetricsHandler
unfolding is_infra_path increment_request
count_request u m = if not (is_infra_path u) then increment_request m else m

module _ {Store : Type 0} (r : EventRepository Store) (json_parse : String → Option Value) where
  -- The listener inside the logging middleware: preflight, then the routes in their order.
  unfoldable pub route : Url → Request → Moment → MetricsHandler → Store → Response × Store
  unfolding handle_health handle_live handle_ready handle_metrics handle_requests handle_get
      handle_post
  route u q e m s =
      if q.method == "OPTIONS"
      then (record { status = 204; body = no_body }, s)
      else if q.url == "/health" && q.method == "GET"
      then (handle_health e.ping, s)
      else if q.url == "/health/live" && q.method == "GET"
      then (handle_live, s)
      else if q.url == "/health/ready" && q.method == "GET"
      then (handle_ready e.ping, s)
      else if q.url == "/metrics" && q.method == "GET"
      then (handle_metrics m, s)
      else if u.pathname == "/metrics/requests" && q.method == "GET"
      then (handle_requests (u.param "limit") m, s)
      else if u.pathname == "/events" && q.method == "GET"
      then (handle_get r (u.param "deviceId") (u.param "type") s, s)
      else if q.url == "/events" && q.method == "POST"
      then handle_post r json_parse e.id e.now q.body s
      else (record { status = 404; body = error "not found" }, s)

  abbrev pub with_metrics : MetricsHandler → Response × Store → Outcome Store
  with_metrics m (response, s) = replied response (record { metrics = m; store = s })

  abbrev pub serve_at : Option Url → Request → Moment → Server Store → Outcome Store
  serve_at none q e v = crashed
  serve_at (some u) q e v =
      let m = count_request u v.metrics in with_metrics m (route u q e m v.store)

  -- A request up to its reply: the URL is parsed before anything is counted or answered.
  unfoldable pub serve :
      (parse_url : String → Option Url) → Request → Moment → Server Store → Outcome Store
  unfolding count_request route
  serve parse_url q e v = serve_at (parse_url q.url) q e v

-- The trace that the listener of `finish` makes of the request, its reply's status, the time that
-- it took and the time at the end.
abbrev pub trace_of :
    Url → (method : String) → (status duration_ms : ℕ) → (now : String) → RequestTrace
trace_of u method status duration_ms now = record {
  method = method;
  path = u.pathname;
  status = status;
  duration_ms = duration_ms;
  timestamp = now;
}

-- The listener of `finish`.
unfoldable pub finish :
    Url
    → (method : String) → (status duration_ms : ℕ) → (now : String) → MetricsHandler
    → MetricsHandler
unfolding is_infra_path push_trace increment_error
finish u method status duration_ms now m =
    if is_infra_path u
    then m
    else let pushed = push_trace (trace_of u method status duration_ms now) m in
      if leb 400 status then increment_error pushed else pushed
