-- ===== src/Tests/Shell.antt =====
-- The shell on the devices page, with its panel open and after an error.
use asset_tracker.Prelude.{◌≡◌, refl, ◌≢◌, true, false, none, some, [], ◌∷◌, String, eq_iff, arith}
use asset_tracker.Number.{whole}
use asset_tracker.Storage.{Storage, get_item, lookup}
use asset_tracker.View.{View, heading}
use asset_tracker.Auth.Guard.{Platform, with_exp, passes, redirects, check_auth}
use asset_tracker.Settings.{Settings, mount as mount_settings}
use asset_tracker.Auth.{mount as mount_auth}
use asset_tracker.Settings.Panel.{signs_out, saves}
use asset_tracker.Shared.Boundary.{new_boundary}
use asset_tracker.Shell.{
  load, start_app, AppLayout, App, Event, in_panel, mount_layout, arrive, update,
}
use asset_tracker.Shell.Laws.{in_settings, update-arrive}
use asset_tracker.Shell.{navigate}
use asset_tracker.Shell.Sharing.{
  started, next, handles, goes, Reachable, IsShared, Reachable-IsShared,
}
use asset_tracker.Tests.Settings.{unary}

abbrev platform : Platform
platform = record { atob = λ s. some s; json_parse = λ s. some (with_exp (whole 5)) }

abbrev kept : Storage
kept = record { denied = false; items = ("auth_token", "h.p.s") ∷ [] }

abbrev intervals : Settings
intervals = record { health_interval = whole 2000; metrics_interval = whole 5000; storage = kept }

abbrev open_layout : AppLayout
open_layout = record (mount_layout intervals) { settings_open = true }

abbrev app : App
app = record {
  auth = record { token = some "h.p.s"; is_loading = false; storage = kept; href = none };
  settings = intervals;
  pathname = "/devices";
  layout = some open_layout;
  boundary = record { has_error = true; error = some "boom" };
}

devices_ne_login : let path : String = "/devices" in path ≢ "/login"
devices_ne_login = ground (arith, eq_iff "/devices" "/login")

update-arrive_example :
    let out = update unary (in_panel signs_out) app in
    let left = out.0.auth.storage in
    let alone = arrive "/login" out.0 in
    (out.1 ≡ some "/login")
    × (out.0.auth.token ≡ none)
    × (check_auth platform 9 "/login" left ≡ passes left)
    × (check_auth platform 9 "/devices" left ≡ redirects "/login" left)
    × (alone.layout ≡ none)
    × (alone.boundary ≡ new_boundary)
    × ((arrive "/devices" alone).layout ≡ some (mount_layout alone.settings))
update-arrive_example =
    update-arrive unary platform 9 (in_panel signs_out) app open_layout "/devices" in_settings refl
      refl devices_ne_login

abbrev page : View Event
page = heading "Devices" ∷ []

abbrev started_app : App
started_app =
    load (record { token = some "h.p.s"; is_loading = false; storage = kept; href = none })
      (mount_settings unary kept) "/devices"

-- The page loads while the token is fresh, the settings are saved, and the guard then finds the
-- token expired.
abbrev guarded_app : App
guarded_app = navigate platform 4000 "/devices" started_app

started-Reachable : Reachable unary platform guarded_app
unfolding start_app mount_auth get_item lookup
started-Reachable = started kept 4000 "/devices" started_app refl

Reachable-IsShared_example :
    IsShared (navigate platform 6000 "/events" (update unary (in_panel saves) guarded_app).0)
Reachable-IsShared_example =
    Reachable-IsShared unary platform
      (next (next started-Reachable (handles (in_panel saves))) (goes 6000 "/events"))
