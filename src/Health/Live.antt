-- ===== src/Health/Live.antt =====
-- The bar of live metrics, web-ui/src/components/layout/LiveMetrics.tsx. Its six queries are
-- values; the filters of the trace table in the dialog live as long as the table is shown.
use Prim.Native.String
use asset_tracker.Prelude.{
  ℕ, Bool, true, false, not, ◌&&◌, ◌++◌, Option, none, some, List, [], ◌∷◌, String, is_some, ltb,
  if◌then◌else◌,
}
use asset_tracker.Query.{Query}
use asset_tracker.View.{View, text, alert, button, map_view}
use asset_tracker.Api.Health.{Service, go, node}
use asset_tracker.Api.Metrics.{RequestTrace, MetricsDetail}
use asset_tracker.Shared.Modal.{modal}
use asset_tracker.Trace
use asset_tracker.Trace.{FilterState, no_filters, set_filters}
use asset_tracker.Trace.Table.{Formats, trace_table}
use asset_tracker.Health.{
  HealthStatus, healthy, offline, unhealthy, stale, same_status, classify_health, worst_status,
}

-- The totals of a metrics body, where it has them.
pub record Totals : Type 0 where
  pub requests_total : Option ℕ
  pub errors_total : Option ℕ

-- What the bar is given for one service.
pub record Feed : Type 0 where
  pub health : Query String
  pub metrics : Query Totals
  pub detail : Query MetricsDetail

-- `locale_number` is `toLocaleString`, `rate` is `((errors / requests) * 100).toFixed(1)`, and
-- `last_refresh` is the time of the rendering.
pub record LiveFormats : Type 0 where
  pub table : Formats
  pub locale_number : ℕ → String
  pub rate : (errors requests : ℕ) → String
  pub last_refresh : String

pub record LiveMetrics : Type 0 where
  pub detail_service : Option Service
  pub filters : FilterState

pub data Event : Type 0 where
  opens : Service → Event
  closes : Event
  filters_by : Trace.Event → Event

abbrev same_service : Option Service → Service → Bool
same_service (some go) go = true
same_service (some node) node = true
same_service _ _ = false

-- A table that goes away loses its filters.
unfoldable pub update : Event → LiveMetrics → LiveMetrics
update (opens s) m =
    if same_service m.detail_service s
    then m
    else record { detail_service = some s; filters = no_filters }
update closes m = record { detail_service = none; filters = no_filters }
update (filters_by e) m = record m { filters = set_filters e m.filters }

abbrev pub status_title : HealthStatus → String
status_title healthy = "Healthy"
status_title stale = "Stale"
status_title unhealthy = "Unhealthy"
status_title offline = "Offline"

unfoldable pub status_of : (String → String) → Query String → HealthStatus
status_of lower q = classify_health lower q.is_error q.content q.error

unfoldable pub requests_of : Query Totals → Option ℕ
requests_of q =
    if q.is_error then none else elim q.content [ none ↦ none | some t ↦ t.requests_total ]

unfoldable pub errors_of : Query Totals → Option ℕ
errors_of q = if q.is_error then none else elim q.content [ none ↦ none | some t ↦ t.errors_total ]

unfoldable pub health_dot : {M : Type 0} → HealthStatus → (label : String) → View M
health_dot st label = text (status_title st) ∷ text label ∷ []

unfoldable pub counter : {M : Type 0} → (ℕ → String) → (label : String) → Option ℕ → View M
counter show label value =
    text (String.◌++◌ label (String.◌++◌ ": " (elim value [ none ↦ "—" | some n ↦ show n ]))) ∷ []

-- The error rate: only with some requests, and a known number of errors.
unfoldable pub err_rate : LiveFormats → (requests errors : Option ℕ) → Option String
err_rate fm (some r) (some e) = if ltb 0 r then some (fm.rate e r) else none
err_rate fm (some r) none = none
err_rate fm none _ = none

abbrev rate_view : {M : Type 0} → Option String → View M
rate_view none = []
rate_view (some s) = text "Error rate" ∷ text (String.◌++◌ s "%") ∷ []

abbrev numbers_view : {M : Type 0} → LiveFormats → (requests errors : Option ℕ) → View M
numbers_view fm none errors = text "No requests yet" ∷ []
numbers_view fm (some r) errors =
    text "Requests"
    ∷ text (fm.locale_number r)
    ∷ text "Errors"
    ∷ text (elim errors [ none ↦ "0" | some e ↦ fm.locale_number e ])
    ∷ rate_view (err_rate fm (some r) errors)

abbrev traces_view : LiveFormats → Option (List RequestTrace) → FilterState → View Event
traces_view fm none filters = []
traces_view fm (some ts) filters = map_view filters_by (trace_table fm.table ts filters)

unfoldable pub service_detail_card :
    LiveFormats
    → HealthStatus
    → (requests errors : Option ℕ) → Option (List RequestTrace)
    → FilterState
    → View Event
unfolding err_rate
service_detail_card fm st requests errors traces filters =
    text (status_title st)
    ∷ text (String.◌++◌ "Last refresh: " fm.last_refresh)
    ∷ (numbers_view fm requests errors ++ traces_view fm traces filters)

abbrev recent_of : Option MetricsDetail → List RequestTrace
recent_of none = []
recent_of (some d) = d.recent

-- The dialog's content for the service that it is open for.
unfoldable pub detail_view : LiveFormats → Feed → FilterState → View Event
unfolding service_detail_card status_of requests_of errors_of
detail_view fm f filters =
    if f.detail.is_loading && not (is_some f.detail.content)
    then text "Loading traces..." ∷ []
    else if f.detail.is_error && not (is_some f.detail.content)
    then alert "Failed to load trace details" ∷ []
    else service_detail_card fm (status_of fm.table.lower f.health) (requests_of f.metrics)
        (errors_of f.metrics) (some (recent_of f.detail.content)) filters

unfoldable pub badge : {M : Type 0} → HealthStatus → HealthStatus → View M
badge a b =
    let worst = worst_status a b in
    if same_status worst healthy then [] else text (status_title worst) ∷ []

-- A service's button is shown as the button, its dot and its two counters.
abbrev service_view : LiveFormats → Service → (name label : String) → Feed → View Event
service_view fm s name label f =
    button name false (opens s)
    ∷ (health_dot (status_of fm.table.lower f.health) label
        ++ (counter fm.table.show_number "req" (requests_of f.metrics)
            ++ counter fm.table.show_number "err" (errors_of f.metrics)))

abbrev chosen_view :
    LiveFormats → (go_feed node_feed : Feed) → FilterState → Option Service → View Event
chosen_view fm g n filters none = []
chosen_view fm g n filters (some go) = detail_view fm g filters
chosen_view fm g n filters (some node) = detail_view fm n filters

unfoldable pub live_metrics : LiveFormats → (go_feed node_feed : Feed) → LiveMetrics → View Event
unfolding badge health_dot counter status_of requests_of errors_of
live_metrics fm g n m =
    badge (status_of fm.table.lower g.health) (status_of fm.table.lower n.health)
    ++ (service_view fm go "Go metrics detail" "Go API" g
        ++ (service_view fm node "Node metrics detail" "Node API" n
            ++ modal (is_some m.detail_service) closes
                (some (
                  if same_service m.detail_service go
                  then "Go API Metrics"
                  else "Node.js API Metrics"))
                (chosen_view fm g n m.filters m.detail_service)))
