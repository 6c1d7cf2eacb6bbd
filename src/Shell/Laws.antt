-- ===== src/Shell/Laws.antt =====
-- What a logout does to the whole shell, and what an error leaves behind.
use asset_tracker.Prelude.{
  ℕ, ◌≡◌, refl, ◌∙◌, ◌≢◌, true, false, Option, none, some, List, [], ◌∷◌, String, eq_iff, arith,
  All, is_some,
}
use asset_tracker.View.{View}
use asset_tracker.Auth.{AuthState, logout}
use asset_tracker.Auth.Guard.{Platform, passes, redirects, check_auth}
use asset_tracker.Auth.Laws.{logout-check_auth, logout-passes_login}
use asset_tracker.Settings.{Conversions}
use asset_tracker.Settings.Panel.{signs_out}
use asset_tracker.Shared.Boundary.{boundary_view, new_boundary}
use asset_tracker.Shell.{
  AppLayout, App, Event, bar_logout, in_panel, mount_layout, is_login_page, arrive, handle_logout,
  update_panel, update, root_component,
}

-- The two controls that sign out.
pub data SignsOut : Event → Type 0 where
  in_bar : SignsOut bar_logout
  in_settings : SignsOut (in_panel signs_out)

-- What a sign-out leaves of an app whose session was `s`.
pub record IsSignedOut (s : AuthState) (out : App × Option String) : Type 0 where
  pub asks_for_login : out.1 ≡ some "/login"
  pub session : out.0.auth ≡ logout s
  pub layout_stays : is_some out.0.layout ≡ true

update-IsSignedOut :
    (c : Conversions) (e : Event) (a : App) (l : AppLayout)
    → SignsOut e
    → a.layout ≡ some l
    → IsSignedOut a.auth (update c e a)
unfolding update handle_logout update_panel logout
update-IsSignedOut c e a l in_bar h = ground arith
update-IsSignedOut c e a l in_settings h = ground arith

arrive-login :
    (a : App)
    → is_some a.layout ≡ true
    → ((arrive "/login" a).layout ≡ none) × ((arrive "/login" a).boundary ≡ new_boundary)
unfolding arrive is_login_page
arrive-login a h = ground arith

arrive-fresh :
    (a : App) (path : String)
    → path ≢ "/login"
    → a.layout ≡ none
    → (arrive path a).layout ≡ some (mount_layout a.settings)
unfolding arrive is_login_page mount_layout
arrive-fresh a path k h = ground (arith, eq_iff path "/login")

-- A click on either Logout, in the top bar or in the settings panel, with the storage open: the
-- provider has no token and the shell asks for /login; the guard lets /login pass, and redirects
-- every other address there; the login page stands alone, with no layout and no error; and the
-- first page after it has a fresh layout, with the settings panel closed.
pub update-arrive :
    (c : Conversions) (p : Platform) (now : ℕ) (e : Event) (a : App) (l : AppLayout) (path : String)
    → SignsOut e
    → a.layout ≡ some l
    → a.auth.storage.denied ≡ false
    → path ≢ "/login"
    → let out = update c e a in
      let left = out.0.auth.storage in
      let alone = arrive "/login" out.0 in
      (out.1 ≡ some "/login")
      × (out.0.auth.token ≡ none)
      × (check_auth p now "/login" left ≡ passes left)
      × (check_auth p now path left ≡ redirects "/login" left)
      × (alone.layout ≡ none)
      × (alone.boundary ≡ new_boundary)
      × ((arrive path alone).layout ≡ some (mount_layout alone.settings))
update-arrive c p now e a l path signs here allowed k =
    let out = update-IsSignedOut c e a l signs here in
    let (no_token, others, _, _, _) = logout-check_auth p now path a.auth allowed k in
    let (gone, fresh) = arrive-login (update c e a).0 out.layout_stays in
    (
      out.asks_for_login,
      rw out.session no_token,
      rw out.session (logout-passes_login p now a.auth allowed),
      rw out.session others,
      gone,
      fresh,
      arrive-fresh (arrive "/login" (update c e a).0) path k gone,
    )

-- Going from one address to the next.
abbrev pub visit : List String → App → App
visit [] a = a
visit (path ∷ paths) a = visit paths (arrive path a)

arrive-keeps :
    (a : App) (path : String)
    → path ≢ "/login"
    → is_some a.layout ≡ true
    → ((arrive path a).boundary ≡ a.boundary) × (is_some (arrive path a).layout ≡ true)
unfolding arrive is_login_page
arrive-keeps a path k h = ground (arith, eq_iff path "/login")

visit-keeps :
    (paths : List String) (a : App)
    → All (λ path. path ≢ "/login") paths
    → is_some a.layout ≡ true
    → ((visit paths a).boundary ≡ a.boundary) × (is_some (visit paths a).layout ≡ true)
visit-keeps [] a ks h = (refl, h)
visit-keeps (path ∷ paths) a (k, ks) h =
    let (same, there) = arrive-keeps a path k h in
    let (later, stays) = visit-keeps paths (arrive path a) ks there in (later ∙ same, stays)

root_component-error :
    (c : Conversions) (live page other : View Event) (a : App)
    → a.boundary.has_error ≡ true
    → root_component c live page a ≡ root_component c live other a
unfolding root_component boundary_view
root_component-error c live page other a h = rw h refl

root_component-alone :
    (c : Conversions) (live page : View Event) (a : App)
    → a.layout ≡ none
    → a.boundary ≡ new_boundary
    → root_component c live page a ≡ page
unfolding root_component boundary_view new_boundary
root_component-alone c live page a h k = rw (h, k) refl

-- Once a page under the layout has thrown, the error hides every page that is visited after it,
-- through any number of addresses other than /login: what is rendered does not depend on the page.
-- Arriving at /login shows its page again.
visit-hides_pages :
    (c : Conversions) (live page other : View Event) (paths : List String) (a : App)
    → All (λ path. path ≢ "/login") paths
    → is_some a.layout ≡ true
    → a.boundary.has_error ≡ true
    → (root_component c live page (visit paths a) ≡ root_component c live other (visit paths a))
      × (root_component c live page (arrive "/login" (visit paths a)) ≡ page)
visit-hides_pages c live page other paths a ks h broken =
    let (same, there) = visit-keeps paths a ks h in
    let (gone, fresh) = arrive-login (visit paths a) there in
    (
      root_component-error c live page other (visit paths a) (rw same broken),
      root_component-alone c live page (arrive "/login" (visit paths a)) gone fresh,
    )
