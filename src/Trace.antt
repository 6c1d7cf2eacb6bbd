-- ===== src/Trace.antt =====
-- The table of recent requests, web-ui/src/components/layout/TraceTable.tsx: its filters and
-- their controls. `lower` is `toLowerCase`.
pub mod Table
pub mod Laws
use asset_tracker.Prelude.{
  ℕ, ◌+◌, ◌≡◌, Bool, true, false, not, ◌&&◌, Option, none, some, List, [], ◌∷◌, String, ◌==◌,
  includes, if◌then◌else◌, ltb, leb, filter, truthy,
}
use asset_tracker.Api.Metrics.{RequestTrace}

pub data MethodFilter : Type 0 where
  all get post put delete : MethodFilter

abbrev pub methods : List MethodFilter
methods = all ∷ get ∷ post ∷ put ∷ delete ∷ []

abbrev pub method_name : MethodFilter → String
method_name all = "ALL"
method_name get = "GET"
method_name post = "POST"
method_name put = "PUT"
method_name delete = "DELETE"

abbrev pub is_all : MethodFilter → Bool
is_all all = true
is_all _ = false

abbrev pub same_method : MethodFilter → MethodFilter → Bool
same_method all all = true
same_method get get = true
same_method post post = true
same_method put put = true
same_method delete delete = true
same_method _ _ = false

pub record FilterState : Type 0 where
  pub method : MethodFilter
  pub errors_only : Bool
  pub path_search : String

abbrev pub no_filters : FilterState
no_filters = record { method = all; errors_only = false; path_search = "" }

-- The test of `applyFilters`, one early return after the other.
unfoldable pub keeps : (String → String) → FilterState → RequestTrace → Bool
keeps lower f t =
    if not (is_all f.method) && not (t.method == method_name f.method)
    then false
    else if f.errors_only && ltb t.status 400
    then false
    else if truthy f.path_search && not (includes (lower t.path) (lower f.path_search))
    then false
    else true

unfoldable pub apply_filters :
    (String → String) → List RequestTrace → FilterState → List RequestTrace
unfolding keeps
apply_filters lower traces f = filter (keeps lower f) traces

unfoldable pub count_active_filters : FilterState → ℕ
count_active_filters f =
    let count = if is_all f.method then 0 else 1 in
    let count' = if f.errors_only then count + 1 else count in
    if truthy f.path_search then count' + 1 else count'

-- The controls of the filter bar.
pub data Event : Type 0 where
  picks_method : MethodFilter → Event
  toggles_errors clears_all : Event
  types_path : String → Event

unfoldable pub set_filters : Event → FilterState → FilterState
set_filters (picks_method m) f = record f { method = if same_method f.method m then all else m }
set_filters toggles_errors f = record f { errors_only = not f.errors_only }
set_filters clears_all f = no_filters
set_filters (types_path v) f = record f { path_search = v }

unfoldable pub method_color : String → String
method_color m =
    if m == "GET"
    then "text-blue-400"
    else if m == "POST"
    then "text-green-400"
    else if m == "PUT"
    then "text-amber-400"
    else if m == "DELETE"
    then "text-red-400"
    else "text-slate-400"

unfoldable pub status_color_class : ℕ → String
status_color_class s =
    if leb 200 s && ltb s 300
    then "text-green-400"
    else if leb 300 s && ltb s 400
    then "text-blue-400"
    else if leb 400 s && ltb s 500
    then "text-amber-400"
    else if leb 500 s
    then "text-red-400"
    else "text-slate-400"
