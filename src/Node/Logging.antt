-- ===== src/Node/Logging.antt =====
-- The middleware of node-service/src/interfaces/middleware.js, which logs each request when its
-- reply is finished, and the two listeners of `finish` in the order in which
-- node-service/src/index.js adds them. The logger is a list of lines, the oldest first.
pub mod Laws
use asset_tracker.Prelude.{ℕ, ◌≡◌, Option, some, List, [], ◌∷◌, ◌++◌, String}
use asset_tracker.Node.Metrics.{MetricsHandler, new_metrics}
use asset_tracker.Node.Server.{Url, Request, count_request, finish}

-- The line "request completed".
pub record LogLine : Type 0 where
  pub method : String
  pub url : String
  pub status_code : ℕ
  pub duration_ms : ℕ

abbrev pub log_line : Request → (status_code duration_ms : ℕ) → LogLine
log_line q status_code duration_ms = record {
  method = q.method;
  url = q.url;
  status_code = status_code;
  duration_ms = duration_ms;
}

-- What the middleware's listener of `finish` does.
unfoldable pub logging_middleware :
    Request → (status_code duration_ms : ℕ) → List LogLine → List LogLine
logging_middleware q status_code duration_ms log = log ++ log_line q status_code duration_ms ∷ []

-- The counters, the log, and the requests that are open with their parsed addresses.
pub record Traffic : Type 0 where
  pub metrics : MetricsHandler
  pub log : List LogLine
  pub open_requests : List (Request × Url)

unfoldable pub arrive : Request → Url → Traffic → Traffic
unfolding count_request
arrive q u s = record s {
  metrics = count_request u s.metrics;
  open_requests = (q, u) ∷ s.open_requests;
}

-- Both listeners of `finish`: each takes the time on its own.
unfoldable pub complete :
    Request → Url → (status duration_ms logged_ms : ℕ) → (now : String) → Traffic → Traffic
unfolding finish logging_middleware
complete q u status duration_ms logged_ms now s = record s {
  metrics = finish u q.method status duration_ms now s.metrics;
  log = logging_middleware q status logged_ms s.log;
}

module _ (parse_url : String → Option Url) where
  pub data Step (s : Traffic) : Traffic → Type 0 where
    arrives : (q : Request) (u : Url) → parse_url q.url ≡ some u → Step s (arrive q u s)
    finishes :
        (before after : List (Request × Url)) (q : Request) (u : Url)
        (status duration_ms logged_ms : ℕ) (now : String)
        → s.open_requests ≡ before ++ (q, u) ∷ after
        → Step s (record (complete q u status duration_ms logged_ms now s) {
          open_requests = before ++ after;
        })

  pub data Reachable : Traffic → Type 0 where
    started : Reachable (record { metrics = new_metrics; log = []; open_requests = [] })
    next : {s t : Traffic} → Reachable s → Step s t → Reachable t
