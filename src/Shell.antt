-- ===== src/Shell.antt =====
-- The application shell of the web interface, web-ui/src/routes/__root.tsx and, in
-- web-ui/src/components/layout, AppLayout.tsx, TopBar.tsx and the handlers of SettingsPanel.tsx
-- that reach outside the panel; `useLogout` of use-auth.ts is the provider's `logout`. The router
-- is a parameter: a handler gives the address that it asks for, and `arrive` is the render after
-- the router went to an address.
pub mod Main
pub mod Routes
pub mod Laws
pub mod Sharing
use asset_tracker.Prelude.{
  ℕ, Bool, true, false, not, Option, none, some, List, [], ◌∷◌, ◌++◌, String, ◌==◌, ◌&&◌, nat_beq,
  is_some, if◌then◌else◌,
}
use asset_tracker.Number.{Number, nan, neg_infinity, infinity, whole, negative}
use asset_tracker.View.{View, heading, button, map_view}
use asset_tracker.Shared.Boundary.{ErrorBoundary, new_boundary, handle_retry, boundary_view}
use asset_tracker.Storage.{Storage}
use asset_tracker.Auth.Guard.{Platform, threw, passes, redirects, check_auth}
use asset_tracker.Auth.{AuthState, logout, mount as mount_auth}
use asset_tracker.Settings.{Conversions, Settings, mount as mount_settings}
use asset_tracker.Settings.Panel
use asset_tracker.Settings.Panel.{
  Panel, closed, key_escape, saves, signs_out, saved_timeout, health_typed, metrics_typed,
  mount_panel, sync_panel, save_intervals, type_health, type_metrics, hide_saved, panel_view,
}

-- The state below `AppLayout`: whether the panel is open, and the panel, which stays mounted while
-- it is closed.
pub record AppLayout : Type 0 where
  pub settings_open : Bool
  pub panel : Panel

pub record App : Type 0 where
  pub auth : AuthState
  pub settings : Settings
  pub pathname : String
  -- `none` where the root renders no `AppLayout`
  pub layout : Option AppLayout
  pub boundary : ErrorBoundary

pub data Event : Type 0 where
  settings_click bar_logout retry : Event
  in_panel : Panel.Event → Event
  -- an event of the live metrics or of the page, which have states of their own
  elsewhere : Event

unfoldable pub mount_layout : Settings → AppLayout
unfolding mount_panel
mount_layout s = record { settings_open = false; panel = mount_panel s }

unfoldable pub is_login_page : String → Bool
is_login_page pathname = pathname == "/login"

abbrev kept_or_mounted : Settings → Option AppLayout → AppLayout
kept_or_mounted s none = mount_layout s
kept_or_mounted s (some l) = l

-- The root at an address. Its two branches are different trees, so that going from one to the
-- other unmounts the layout, the error boundary and the page.
unfoldable pub arrive : String → App → App
unfolding is_login_page mount_layout new_boundary
arrive pathname a =
    if is_login_page pathname
    then record a {
      pathname = pathname;
      layout = none;
      boundary = if is_some a.layout then new_boundary else a.boundary;
    }
    else record a {
      pathname = pathname;
      layout = some (kept_or_mounted a.settings a.layout);
      boundary = if is_some a.layout then a.boundary else new_boundary;
    }

-- The two providers share the browser's storage: what one writes the other reads.
abbrev pub with_auth : AuthState → App → App
with_auth s a = record a { auth = s; settings = record a.settings { storage = s.storage } }

abbrev pub with_settings : Settings → App → App
with_settings s a = record a { settings = s; auth = record a.auth { storage = s.storage } }

abbrev pub with_storage : Storage → App → App
with_storage storage a = record a {
  auth = record a.auth { storage = storage };
  settings = record a.settings { storage = storage };
}

-- A page load at an address.
unfoldable pub load : AuthState → Settings → String → App
unfolding arrive new_boundary
load auth settings pathname = arrive pathname (record {
  auth = auth;
  settings = settings;
  pathname = pathname;
  layout = none;
  boundary = new_boundary;
})

-- `App` in a fresh page: both providers are mounted from the storage; `none` where reading it
-- throws.
unfoldable pub start_app : Conversions → Storage → String → Option App
unfolding mount_auth mount_settings load
start_app c storage pathname = elim (mount_auth storage) [
  | none ↦ none
  | some auth ↦ some (load auth (mount_settings c storage) pathname)
]

-- A navigation, also the first one of a page: `beforeLoad` of every page runs the guard, which may
-- erase the token behind the provider's back or redirect to /login, where it lets pass; a storage
-- that is denied makes it throw, and the address is not reached.
unfoldable pub navigate : Platform → (now : ℕ) → (pathname : String) → App → App
unfolding check_auth arrive
navigate p now pathname a = elim (check_auth p now pathname a.auth.storage) [
  | threw ↦ a
  | passes storage ↦ arrive pathname (with_storage storage a)
  | redirects to storage ↦ arrive to (with_storage storage a)
]

-- `handleLogout` of the top bar: the session after it, and where it navigates.
unfoldable pub handle_logout : App → App × Option String
unfolding logout
handle_logout a = (with_auth (logout a.auth) a, some "/login")

unfoldable pub toggle_settings : AppLayout → AppLayout
toggle_settings l = record l { settings_open = not l.settings_open }

unfoldable pub close_settings : AppLayout → AppLayout
close_settings l = record l { settings_open = false }

-- The listener of `keydown` is there while the panel is open.
unfoldable pub escape : AppLayout → AppLayout
unfolding close_settings
escape l = if l.settings_open then close_settings l else l

-- Object.is, by which React compares an effect's dependencies
abbrev is_same : Number → Number → Bool
is_same nan nan = true
is_same neg_infinity neg_infinity = true
is_same infinity infinity = true
is_same (whole m) (whole n) = nat_beq m n
is_same (negative m) (negative n) = nat_beq m n
is_same _ _ = false

-- The effect that copies intervals which changed into the panel's fields.
abbrev synced : Settings → Settings → Panel → Panel
synced old s p =
    if is_same old.health_interval s.health_interval
      && is_same old.metrics_interval s.metrics_interval
    then p
    else sync_panel s p

-- `handleSaveIntervals`, with that effect.
abbrev pub saved_panel : AppLayout → App → Panel × Settings → App
saved_panel l a (p, s) = record (with_settings s a) {
  layout = some (record l { panel = synced a.settings s p });
}

-- An event in the panel of a layout. Its `handleLogout` signs out, navigates and closes.
unfoldable pub update_panel : Conversions → Panel.Event → AppLayout → App → App × Option String
unfolding close_settings escape save_intervals hide_saved type_health type_metrics logout sync_panel
update_panel c closed l a = (record a { layout = some (close_settings l) }, none)
update_panel c key_escape l a = (record a { layout = some (escape l) }, none)
update_panel c saves l a = (saved_panel l a (save_intervals c l.panel a.settings), none)
update_panel c signs_out l a =
    (record (with_auth (logout a.auth) a) { layout = some (close_settings l) }, some "/login")
update_panel c saved_timeout l a =
    (record a { layout = some (record l { panel = hide_saved l.panel }) }, none)
update_panel c (health_typed v) l a =
    (record a { layout = some (record l { panel = type_health c v l.panel }) }, none)
update_panel c (metrics_typed v) l a =
    (record a { layout = some (record l { panel = type_metrics c v l.panel }) }, none)

abbrev pub update_layout : Conversions → Event → AppLayout → App → App × Option String
update_layout c settings_click l a = (record a { layout = some (toggle_settings l) }, none)
update_layout c bar_logout l a = handle_logout a
update_layout c retry l a = (record a { boundary = handle_retry a.boundary }, none)
update_layout c (in_panel e) l a = update_panel c e l a
update_layout c elsewhere l a = (a, none)

-- Without the layout there is only the boundary.
abbrev pub update_alone : Event → App → App × Option String
update_alone retry a = (record a { boundary = handle_retry a.boundary }, none)
update_alone e a = (a, none)

abbrev pub update_in : Conversions → Event → App → Option AppLayout → App × Option String
update_in c e a none = update_alone e a
update_in c e a (some l) = update_layout c e l a

-- An event of the shell, and where it navigates.
unfoldable pub update : Conversions → Event → App → App × Option String
unfolding toggle_settings handle_logout handle_retry update_panel
update c e a = update_in c e a a.layout

unfoldable pub top_bar : View Event
top_bar =
    heading "ASSET TRACKER"
    ∷ button "Settings" false settings_click
    ∷ button "Logout" false bar_logout
    ∷ []

-- `AppLayout` around what the root gives it; `live` is the view of the live metrics.
unfoldable pub app_layout :
    Conversions
    → (live : View Event) → (token : Option String) → AppLayout
    → View Event
    → View Event
unfolding top_bar panel_view
app_layout c live token l children =
    top_bar
    ++ (live ++ (children ++ map_view in_panel (panel_view c l.settings_open token l.panel)))

-- `RootComponent`; `PageTransition` adds style only.
unfoldable pub root_component : Conversions → (live page : View Event) → App → View Event
unfolding app_layout boundary_view is_login_page
root_component c live page a =
    let content = boundary_view a.boundary retry page in
    elim a.layout [ none ↦ content | some l ↦ app_layout c live a.auth.token l content ]
