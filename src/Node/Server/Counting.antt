-- ===== src/Node/Server/Counting.antt =====
-- The counters over any traffic: requests arrive and finish in any order, so that many are open at
-- once. One whose connection breaks never finishes and stays open.
use asset_tracker.Prelude.{
  String, ℕ, ◌+◌, ◌≤◌, ◌≡◌, List, [], ◌∷◌, ◌++◌, length, length-append, arith, leb, if◌then◌else◌,
}
use asset_tracker.Api.Metrics.{RequestTrace}
use asset_tracker.Node.Metrics.{
  MetricsHandler, new_metrics, push_trace, increment_request, increment_error,
}
use asset_tracker.Node.Server.{Url, is_infra_path, count_request, trace_of, finish}

-- The counters, and the requests that are open.
pub record Traffic : Type 0 where
  pub metrics : MetricsHandler
  pub open_requests : List Url

pub data Step (s : Traffic) : Traffic → Type 0 where
  arrives :
      (u : Url)
      → Step s (record { metrics = count_request u s.metrics; open_requests = u ∷ s.open_requests })
  finishes :
      (before after : List Url) (u : Url) (method now : String) (status duration_ms : ℕ)
      → s.open_requests ≡ before ++ u ∷ after
      → Step s (record {
        metrics = finish u method status duration_ms now s.metrics;
        open_requests = before ++ after;
      })

pub data Reachable : Traffic → Type 0 where
  started : Reachable (record { metrics = new_metrics; open_requests = [] })
  next : {s t : Traffic} → Reachable s → Step s t → Reachable t

abbrev pub count_business : List Url → ℕ
count_business [] = 0
count_business (u ∷ us) = (if is_infra_path u then 0 else 1) + count_business us

abbrev pub count_errors : List RequestTrace → ℕ
count_errors [] = 0
count_errors (t ∷ ts) = (if leb 400 t.status then 1 else 0) + count_errors ts

count_business-append :
    (us vs : List Url) → count_business (us ++ vs) ≡ count_business us + count_business vs
count_business-append [] vs = omega arith
count_business-append (u ∷ us) vs = ground (arith, count_business-append us vs)

count_errors-append :
    (ts us : List RequestTrace) → count_errors (ts ++ us) ≡ count_errors ts + count_errors us
count_errors-append [] us = omega arith
count_errors-append (t ∷ ts) us = ground (arith, count_errors-append ts us)

count_errors-le : (ts : List RequestTrace) → count_errors ts ≤ length ts
count_errors-le [] = omega arith
count_errors-le (t ∷ ts) = ground (arith, count_errors-le ts)

-- Every counted request has its trace or is open, and each error is a trace that shows it.
pub record IsCounted (s : Traffic) : Type 0 where
  pub requests_counted :
      s.metrics.requests ≡ length s.metrics.traces + count_business s.open_requests
  pub errors_counted : s.metrics.errors ≡ count_errors s.metrics.traces
  pub errors_bounded : s.metrics.errors ≤ s.metrics.requests

Step-IsCounted : {s t : Traffic} → Step s t → IsCounted s → IsCounted t
unfolding count_request finish push_trace increment_request increment_error
Step-IsCounted {s} (arrives u) h =
    ground (arith, h.requests_counted, h.errors_counted, h.errors_bounded)
Step-IsCounted {s} (finishes before after u method now status ms e) h = ground (
  arith,
  h.requests_counted,
  h.errors_counted,
  e,
  count_business-append before (u ∷ after),
  count_business-append before after,
  count_errors-append s.metrics.traces (trace_of u method status ms now ∷ []),
  count_errors-le s.metrics.traces,
  length-append s.metrics.traces (trace_of u method status ms now ∷ []),
)

-- Whatever requests arrive and finish, in any order: the total of requests is the number of the
-- traces and of the open requests that are no probes, the total of errors is the number of traces
-- with a status of 400 or more, and never exceeds the total of requests.
pub Reachable-IsCounted : {s : Traffic} → Reachable s → IsCounted s
unfolding new_metrics
Reachable-IsCounted started = ground arith
Reachable-IsCounted (next r st) = Step-IsCounted st (Reachable-IsCounted r)
