-- ===== src/Tests/Trace.antt =====
-- The filters of the trace table.
use asset_tracker.Prelude.{true, List, [], ◌∷◌}
use asset_tracker.Api.Metrics.{RequestTrace}
use asset_tracker.Trace.{FilterState, all, apply_filters, keeps}
use asset_tracker.Trace.Laws.{Passes, Selects, apply_filters-Selects}

abbrev traces : List RequestTrace
traces =
    record { method = "GET"; path = "/devices"; status = 200; duration_ms = 3; timestamp = "" }
    ∷ record { method = "POST"; path = "/events"; status = 404; duration_ms = 5; timestamp = "" }
    ∷ []

abbrev only_errors : FilterState
only_errors = record { method = all; errors_only = true; path_search = "" }

apply_filters-Selects_example : Selects (Passes (λ s. s) only_errors) traces (
    record { method = "POST"; path = "/events"; status = 404; duration_ms = 5; timestamp = "" }
    ∷ [])
unfolding apply_filters keeps
apply_filters-Selects_example = apply_filters-Selects (λ s. s) only_errors traces
