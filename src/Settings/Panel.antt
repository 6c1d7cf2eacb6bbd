-- ===== src/Settings/Panel.antt =====
-- The settings panel, web-ui/src/components/layout/SettingsPanel.tsx, over the provider of
-- SettingsContext.tsx and the token of AuthContext.tsx. Texts are cut by characters.
use Prim.Native.String
use asset_tracker.Prelude.{
  ℕ, zero, suc, ◌-◌, Bool, true, false, not, ◌&&◌, ◌||◌, ◌++◌, Option, none, some, [], ◌∷◌, String,
  truthy, ltb, if◌then◌else◌,
}
use asset_tracker.Number.{Number, whole, is_finite, lt}
use asset_tracker.View.{View, heading, text, alert, button, clickable, field, when}
use asset_tracker.Settings.{Conversions, Settings, update_health_interval, update_metrics_interval}

pub record Panel : Type 0 where
  pub edit_health : Number
  pub edit_metrics : Number
  pub health_error : Option String
  pub metrics_error : Option String
  pub saved : Bool

pub data Event : Type 0 where
  closed key_escape saves signs_out saved_timeout : Event
  health_typed metrics_typed : String → Event

-- A freshly mounted panel, and the effect that copies saved intervals into the fields.
unfoldable pub mount_panel : Settings → Panel
mount_panel s = record {
  edit_health = s.health_interval;
  edit_metrics = s.metrics_interval;
  health_error = none;
  metrics_error = none;
  saved = false;
}

unfoldable pub sync_panel : Settings → Panel → Panel
sync_panel s p = record p { edit_health = s.health_interval; edit_metrics = s.metrics_interval }

abbrev pub too_small : Number → Bool
too_small n = not (is_finite n) || lt n (whole 1000)

abbrev check : Number → Option String
check n = if too_small n then some "Minimum 1000ms" else none

abbrev checked : Panel → Panel
checked p = record p { health_error = check p.edit_health; metrics_error = check p.edit_metrics }

abbrev pub valid : Panel → Bool
valid p = not (too_small p.edit_health) && not (too_small p.edit_metrics)

abbrev show_saved : Panel → Settings → Option Settings → Panel × Settings
show_saved p s none = (p, s)
show_saved p s (some s') = (record p { saved = true }, s')

-- `handleSaveIntervals`. Where the first update throws, nothing more is done; where the second
-- does, the first stays.
unfoldable pub save_intervals : Conversions → Panel → Settings → Panel × Settings
unfolding update_health_interval update_metrics_interval
save_intervals c p s =
    if valid p
    then elim (update_health_interval c p.edit_health s) [
      | none ↦ (checked p, s)
      | some s1 ↦ show_saved (checked p) s1 (update_metrics_interval c p.edit_metrics s1)
    ]
    else (checked p, s)

-- The handlers of the two fields.
unfoldable pub type_health : Conversions → String → Panel → Panel
type_health c v p = record p { edit_health = c.to_number v; health_error = none }

unfoldable pub type_metrics : Conversions → String → Panel → Panel
type_metrics c v p = record p { edit_metrics = c.to_number v; metrics_error = none }

-- The timer that `handleSaveIntervals` starts.
unfoldable pub hide_saved : Panel → Panel
hide_saved p = record p { saved = false }

abbrev pub first : ℕ → String → String
first zero s = ""
first (suc n) String.[] = ""
first (suc n) (String.◌∷◌ c s) = String.◌∷◌ c (first n s)

abbrev pub skip : ℕ → String → String
skip zero s = s
skip (suc n) String.[] = ""
skip (suc n) (String.◌∷◌ c s) = skip n s

abbrev pub size : String → ℕ
size String.[] = 0
size (String.◌∷◌ c s) = suc (size s)

-- The token as the panel shows it.
unfoldable pub masked : String → String
masked t =
    if ltb 20 (size t) then String.◌++◌ (first 5 t) (String.◌++◌ "..." (skip (size t - 5) t)) else t

abbrev error_view : Option String → View Event
error_view none = []
error_view (some m) = when (truthy m) (alert m ∷ [])

unfoldable pub section : {M : Type 0} → String → View M → View M
section title children = heading title ∷ children

-- A read-only input carries no event: it is shown as its label and value.
unfoldable pub api_url_row : {M : Type 0} → String → String → View M
api_url_row label value = text label ∷ text value ∷ []

abbrev status_view : Option String → View Event
status_view none = text "Not authenticated" ∷ []
status_view (some t) =
    if truthy t then text "Authenticated" ∷ text (masked t) ∷ [] else text "Not authenticated" ∷ []

unfoldable pub panel_view :
    Conversions → (is_open : Bool) → (token : Option String) → Panel → View Event
unfolding section api_url_row masked
panel_view c is_open token p =
    if is_open
    then clickable closed
      ∷ heading "Settings"
      ∷ button "Close" false closed
      ∷ (section "API Base URLs" (
            api_url_row "Go API" "http://localhost:8080"
            ++ api_url_row "Node API" "http://localhost:3000")
          ++ (section "Polling Intervals" (
                text "Health check every (ms)"
                ∷ field "health-interval" (c.to_text p.edit_health) health_typed
                ∷ (error_view p.health_error
                    ++ text "Default: 2000ms"
                      ∷ text "Metrics refresh every (ms)"
                      ∷ field "metrics-interval" (c.to_text p.edit_metrics) metrics_typed
                      ∷ (error_view p.metrics_error
                          ++ text "Default: 5000ms"
                            ∷ button "Save Intervals" false saves
                            ∷ when p.saved (text "✓ Settings saved" ∷ []))))
              ++ (section "Auth Status" (status_view token)
                  ++ button "Logout" false signs_out ∷ [])))
    else []
