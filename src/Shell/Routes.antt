-- ===== src/Shell/Routes.antt =====
-- The routes that redirect or show a fixed text: index.tsx, devices.create.tsx, dashboards.tsx and
-- $.tsx of web-ui/src/routes.
use asset_tracker.Prelude.{[], ◌∷◌, String}
use asset_tracker.View.{View, heading, text, clickable}

-- Where `beforeLoad` of "/" redirects, and where the effect of "/devices/create" navigates.
unfoldable pub index_redirect : String
index_redirect = "/devices"

unfoldable pub redirect_to_devices : String
redirect_to_devices = "/devices"

unfoldable pub dashboards_page : {M : Type 0} → View M
dashboards_page =
    heading "Dashboard"
    ∷ heading "Overview"
    ∷ text
        "Live service health and metrics are displayed in the top bar for quick reference. Use the Devices tab to manage your devices."
    ∷ []

-- The link carries the event of its address.
unfoldable pub not_found_page : {M : Type 0} → (goes_to : String → M) → View M
not_found_page goes_to =
    heading "404"
    ∷ text "Page not found"
    ∷ clickable (goes_to "/devices")
    ∷ text "Go to Devices"
    ∷ []

-- web-ui/src/components/layout/Header.tsx, which nothing renders.
unfoldable pub header : {M : Type 0} → View M
header = heading "Asset Tracker" ∷ []
