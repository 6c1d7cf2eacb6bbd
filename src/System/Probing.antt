-- ===== src/System/Probing.antt =====
-- The interface's health check and metrics with the service behind them: web-ui/src/lib/api/health.ts
-- and metrics.ts, and the status that web-ui/src/lib/utils/health-status.ts makes of a check.
use asset_tracker.Prelude.{
  ℕ, ◌≤◌, ◌≡◌, refl, ◌∙◌, ap, true, false, Option, none, some, String, ◌==◌, is_some, map,
  if◌then◌else◌, Bool-cases, inl, inr,
}
use asset_tracker.Api.Http.{Fetch, resolved}
use asset_tracker.Api.Health.{node, get_health, get_request}
use asset_tracker.Api.Metrics.{get_metrics_detail}
use asset_tracker.Health.{healthy, unhealthy, stale, classify_health, is_fetch_error_message}
use asset_tracker.Health.Laws.{status_after}
use asset_tracker.Node.Repository.{EventRepository}
use asset_tracker.Node.Reply.{Body, health, detail}
use asset_tracker.Node.Metrics.{MetricsHandler, handle_requests, parse_limit}
use asset_tracker.Node.Metrics.Laws.{take, newest_first, get_traces-newest_first}
use asset_tracker.Node.Health.{wins, handle_ready}
use asset_tracker.Node.Server.{
  Url, Moment, Server, route, serve, serve_at, count_request, is_infra_path,
}
use text.Mathlib.Text.{starts_with}
use asset_tracker.Node.Server.Counting.{Traffic, Reachable, Reachable-IsCounted}
use asset_tracker.System.Wire.{Wire, answered, forwarded, reply_of, fetch_at, fetch_at-node}

-- The `status` of a body.
abbrev pub status_of : Body → String
status_of (health s d) = s
status_of _ = ""

module _ (w : Wire) {Store : Type 0} (r : EventRepository Store) (others : Fetch Body) (e : Moment)
    (v : Server Store) where
  fetch_at-health :
      fetch_at w r others e v (get_request "/api/node/health/ready")
      ≡ answered (handle_ready e.ping)
  unfolding serve route
  fetch_at-health =
      let (u, good, path, _) = w.parses_endpoint "/health/ready" refl in
      fetch_at-node w r others e v (get_request "/api/node/health/ready") "/health/ready" refl
      ∙ ap
          (λ found. reply_of w r others (
            serve_at r w.json_parse found
              (forwarded w (get_request "/api/node/health/ready") "/health/ready") e v))
          good

  -- The status that a check of the Node service gives, with or without an earlier check that
  -- resolved: healthy exactly if the database answers its ping within 500 milliseconds; else stale
  -- after an earlier success, and unhealthy without one. It is never offline while the service
  -- answers.
  pub status_after-get_health :
      (lower : String → String) (syntax : String) (before : Option Body)
      → status_after lower status_of syntax before
          (get_health (fetch_at w r others e v) node).settled
        ≡ (if wins e.ping then healthy else if is_some before then stale else unhealthy)
  unfolding get_health classify_health is_fetch_error_message handle_ready
  status_after-get_health lower syntax before = elim (Bool-cases (wins e.ping)) [
    | inl up ↦ rw (fetch_at-health, up) refl
    | inr down ↦
        elim before
          as (λ b.
            status_after lower status_of syntax b
              (get_health (fetch_at w r others e v) node).settled
            ≡ (if wins e.ping then healthy else if is_some b then stale else unhealthy)) [
              | none ↦ rw (fetch_at-health, down) refl
              | some b ↦ rw (fetch_at-health, down) refl
            ]
  ]

  -- A probe is not counted, so that what it reads does not depend on it.
  probe_uncounted :
      (u : Url) → u.pathname ≡ "/metrics/requests" → count_request u v.metrics ≡ v.metrics
  unfolding count_request is_infra_path
  probe_uncounted u path =
      let infra : starts_with u.pathname "/metrics" ≡ true =
        ap (λ (t : String). starts_with t "/metrics") path in
      let other : starts_with u.pathname "/health" ≡ false =
        ap (λ (t : String). starts_with t "/health") path in
      rw (other, infra) refl

  route-requests :
      (u : Url)
      → u.pathname ≡ "/metrics/requests"
      → u.param "limit" ≡ none
      → (m : MetricsHandler)
      → (route r w.json_parse u
          (forwarded w (get_request "/api/node/metrics/requests") "/metrics/requests")
          e
          m
          v.store).0
        ≡ handle_requests none m
  unfolding route
  route-requests u path limit m =
      let here : (u.pathname == "/metrics/requests") ≡ true =
        ap (λ (t : String). t == "/metrics/requests") path in
      rw here (ap (λ k. handle_requests k m) limit)

  fetch_at-requests :
      fetch_at w r others e v (get_request "/api/node/metrics/requests")
      ≡ answered (handle_requests none v.metrics)
  unfolding serve
  fetch_at-requests =
      let (u, good, path, param) = w.parses_endpoint "/metrics/requests" refl in
      let sent = get_request "/api/node/metrics/requests" in
      fetch_at-node w r others e v sent "/metrics/requests" refl
      ∙ ap
          (λ found.
            reply_of w r others
              (serve_at r w.json_parse found (forwarded w sent "/metrics/requests") e v))
          good
      ∙ ap answered (
          route-requests u path (param "limit") (count_request u v.metrics)
          ∙ ap (handle_requests none) (probe_uncounted u path))

-- The traffic page of the interface, whatever requests came and went at the service before: the
-- call resolves with the service's totals, of which that of errors never exceeds that of requests,
-- and its newest traces, the newest first and at most 50. The call itself is not counted.
pub get_metrics_detail-Reachable :
    (w : Wire) {Store : Type 0} (r : EventRepository Store) (others : Fetch Body) (e : Moment)
    (store : Store) (show : ℕ → String) {t : Traffic}
    → Reachable t
    → ((get_metrics_detail
          (fetch_at w r others e (record { metrics = t.metrics; store = store }))
          show
          node
          none).settled
        ≡ resolved (
            detail t.metrics.requests t.metrics.errors
              (map some (take 50 (newest_first t.metrics.traces)))))
      × (t.metrics.errors ≤ t.metrics.requests)
unfolding get_metrics_detail handle_requests parse_limit
get_metrics_detail-Reachable w {Store} r others e store show {t} reached =
    let v : Server Store = record { metrics = t.metrics; store = store } in
    (
      rw (fetch_at-requests w r others e v, get_traces-newest_first 50 t.metrics) refl,
      (Reachable-IsCounted reached).errors_bounded,
    )
