-- ===== src/Tests/Health.antt =====
-- The health of the services and what the bar and the cards of metrics show.
use asset_tracker.Prelude.{
  ℕ, ◌≤◌, ◌⊎◌, ◌==◌, if◌then◌else◌, none, ℕ, ◌≤◌, ◌≡◌, true, false, some, [], ◌∷◌, String,
}
use asset_tracker.Query.{Query, primitive}
use asset_tracker.Api.Http.{network_failure, Fetch, response}
use asset_tracker.Api.Health.{go, get_health}
use asset_tracker.Trace.{all}
use asset_tracker.Health.{healthy, offline, stale, unhealthy}
use asset_tracker.Health.Laws.{status_after, classify-get_health}
use asset_tracker.Health.Live.{LiveFormats, LiveMetrics, Totals}
use asset_tracker.Health.Cards.{sort_metrics_by_field_order}
use asset_tracker.Health.CardsLaws.{sort_metrics-groups}

abbrev failing : Fetch String
failing r = response 503 (some "down")

classify-get_health_example :
    let c = get_health failing go in
    let st = status_after (λ s. s) (λ s. s) "Failed to fetch" (some "ok") c.settled in
    let reply = failing c.sent in
    (((reply ≡ network_failure) ⊎ ((k : ℕ) × (reply ≡ response k none))) × (st ≡ offline))
    ⊎ ((k : ℕ) × (b : String) × (reply ≡ response k (some b))
        × (200 ≤ k)
        × (k ≤ 299)
        × (st ≡ (if b == "ok" then healthy else unhealthy)))
    ⊎ ((k : ℕ) × (b : String) × (reply ≡ response k (some b))
        × (¬ ((200 ≤ k) × (k ≤ 299)))
        × (st ≡ stale))
classify-get_health_example =
    classify-get_health (λ s. s) (λ s. s) "Failed to fetch" failing go (some "ok")

abbrev formats : LiveFormats
formats = record {
  table = record {
    lower = λ s. s;
    show_time = λ s. s;
    show_duration = λ n. "";
    show_number = λ n. "";
  };
  locale_number = λ n. "";
  rate = λ e r. "25.0";
  last_refresh = "";
}

abbrev known : Query Totals
known = record {
  content = some (record { requests_total = some 4; errors_total = some 1 });
  is_loading = false;
  is_fetching = false;
  is_error = false;
  error = primitive;
}

abbrev dialog : LiveMetrics
dialog = record {
  detail_service = some go;
  filters = record { method = all; errors_only = true; path_search = "" };
}

sort_metrics-groups_example :
    sort_metrics_by_field_order {V = ℕ}
      (("uptime", 1) ∷ ("errors_total", 2) ∷ ("requests_total", 3) ∷ [])
    ≡ ("requests_total", 3) ∷ ("errors_total", 2) ∷ ("uptime", 1) ∷ []
sort_metrics-groups_example =
    sort_metrics-groups (("uptime", 1) ∷ ("errors_total", 2) ∷ ("requests_total", 3) ∷ [])
