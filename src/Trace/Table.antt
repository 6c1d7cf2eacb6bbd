-- ===== src/Trace/Table.antt =====
-- What TraceTable.tsx renders. `show_time` is `new Date(…).toLocaleString()`, `show_duration`
-- is `toFixed(1)` and `show_number` prints a number.
use Prim.Native.String
use asset_tracker.Prelude.{ℕ, false, ◌++◌, List, [], ◌∷◌, String, is_empty, leb, ltb, if◌then◌else◌}
use asset_tracker.View.{View, heading, text, alert, button, field, when, each}
use asset_tracker.Api.Metrics.{RequestTrace}
use asset_tracker.Trace.{
  MethodFilter, methods, method_name, FilterState, apply_filters, count_active_filters, Event,
  picks_method, toggles_errors, clears_all, types_path,
}

pub record Formats : Type 0 where
  pub lower : String → String
  pub show_time : String → String
  pub show_duration : ℕ → String
  pub show_number : ℕ → String

-- A badge is an element of the view of its own: the method in its colour.
unfoldable pub method_badge : {M : Type 0} → String → View M
method_badge m = text m ∷ []

-- A row; the rows of failed requests are in the style of an error.
unfoldable pub row : {M : Type 0} → Formats → RequestTrace → View M
unfolding method_badge
row fm t =
    let shown = λ (s : String). if leb 400 t.status then alert s else text s in
    method_badge t.method
    ++ shown t.path
      ∷ text (fm.show_number t.status)
      ∷ shown (String.◌++◌ (fm.show_duration t.duration_ms) "ms")
      ∷ shown (fm.show_time t.timestamp)
      ∷ []

abbrev chip : MethodFilter → View Event
chip m = button (method_name m) false (picks_method m) ∷ []

abbrev filter_bar : Formats → FilterState → View Event
filter_bar fm f =
    each chip methods
    ++ (button "Errors only" false toggles_errors
        ∷ field "path-search" f.path_search types_path
        ∷ when (ltb 0 (count_active_filters f)) (
            text (fm.show_number (count_active_filters f))
            ∷ button "Clear all" false clears_all
            ∷ []))

unfoldable pub trace_table : Formats → List RequestTrace → FilterState → View Event
unfolding apply_filters count_active_filters row
trace_table fm traces f =
    let filtered = apply_filters fm.lower traces f in
    if is_empty traces
    then text "No recent requests" ∷ []
    else heading "Recent Requests"
      ∷ (filter_bar fm f
          ++ (if is_empty filtered
              then text "No matching requests" ∷ []
              else each (row fm) filtered))
