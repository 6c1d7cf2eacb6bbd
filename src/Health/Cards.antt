-- ===== src/Health/Cards.antt =====
-- The cards of web-ui/src/components/dashboards: HealthCard.tsx and MetricsCard.tsx. The sort is
-- JavaScript's: stable, by the sign of the comparator's result, NaN counting as 0.
use Prim.Native.Char.{code}
use Prim.Native.String
use asset_tracker.Prelude.{
  ℕ, Bool, true, false, ◌&&◌, ◌||◌, Option, none, some, List, [], ◌∷◌, String, ◌==◌, includes,
  is_empty, truthy, ltb, nat_beq, if◌then◌else◌,
}
use asset_tracker.View.{View, heading, text, alert, skeleton, each}

-- The class of the dot, its text and the database line.
unfoldable pub health_card :
    {M : Type 0}
    → (show : ℕ → String) → (name : String) → (port : ℕ) → (is_healthy : Bool)
    → (db_status : String) → (is_loading : Bool) → View M
health_card show name port is_healthy db_status is_loading =
    if is_loading
    then skeleton ∷ []
    else heading name
      ∷ text (String.◌++◌ ":" (show port))
      ∷ text (if is_healthy then "Healthy" else "Unhealthy")
      ∷ (if truthy db_status
          then text "Database:"
            ∷ (if db_status == "connected" then text db_status else alert db_status)
            ∷ []
          else [])

-- The value of a metric: a number, the text of another value, or null or undefined.
pub data Value : Type 0 where
  number : ℕ → Value
  other : String → Value
  nothing : Value

-- `FIELD_ORDER.indexOf`, with `none` for the Infinity of an unknown field.
unfoldable pub field_index : String → Option ℕ
field_index key =
    if key == "requests_total" then some 0 else if key == "errors_total" then some 1 else none

-- Whether the comparator's result is above 0; Infinity less Infinity is NaN.
abbrev pub above : Option ℕ → Option ℕ → Bool
above none none = false
above none (some j) = true
above (some i) none = false
above (some i) (some j) = ltb j i

module _ {V : Type 0} where
  unfoldable pub insert_entry : String × V → List (String × V) → List (String × V)
  insert_entry x [] = x ∷ []
  insert_entry x (y ∷ ys) =
      let rest = insert_entry x ys in
      if above (field_index x.0) (field_index y.0) then y ∷ rest else x ∷ y ∷ ys

  unfoldable pub sort_metrics_by_field_order : List (String × V) → List (String × V)
  unfolding insert_entry field_index
  sort_metrics_by_field_order [] = []
  sort_metrics_by_field_order (x ∷ xs) = insert_entry x (sort_metrics_by_field_order xs)

unfoldable pub formatted_value : (ℕ → String) → Value → String
formatted_value locale_number (number n) = locale_number n
formatted_value locale_number (other s) = s
formatted_value locale_number nothing = "—"

unfoldable pub value_color : (label : String) → Value → String
value_color label (number n) =
    if includes label "error" && ltb 0 n
    then if ltb 50 n then "text-red-400" else "text-amber-300"
    else "text-slate-100"
value_color label _ = "text-slate-100"

-- `label.replace(/_/g, " ")`
unfoldable pub spaced : String → String
spaced String.[] = ""
spaced (String.◌∷◌ c s) =
    if nat_beq (code c) b'_' then String.◌++◌ " " (spaced s) else String.◌∷◌ c (spaced s)

unfoldable pub metric_item : {M : Type 0} → (ℕ → String) → String × Value → View M
unfolding formatted_value spaced
metric_item locale_number (key, value) =
    text (formatted_value locale_number value) ∷ text (spaced key) ∷ []

-- `metrics` are the entries of the object; `is_unavailable` is false where it is left out.
unfoldable pub metrics_card :
    {M : Type 0}
    → (ℕ → String)
    → (title : String) → (metrics : List (String × Value)) → (is_loading is_unavailable : Bool)
    → View M
unfolding sort_metrics_by_field_order metric_item
metrics_card locale_number title metrics is_loading is_unavailable =
    if is_loading
    then skeleton ∷ []
    else if is_unavailable || is_empty metrics
    then heading title ∷ text "Metrics unavailable" ∷ []
    else heading title ∷ each (metric_item locale_number) (sort_metrics_by_field_order metrics)
