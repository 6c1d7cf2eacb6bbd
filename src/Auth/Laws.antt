-- ===== src/Auth/Laws.antt =====
-- What a session keeps, and what the route guard of __root.tsx guarantees to the pages behind it.
use asset_tracker.Prelude.{
  ℕ, ◌≡◌, ◌≢◌, ◌⊎◌, inl, inr, false, Option, none, some, List, String, eq_iff, arith, Option-cases,
}
use asset_tracker.Storage.{Storage, lookup, insert, erase, lookup-insert, lookup-erase}
use asset_tracker.Api.Http.{resolved, rejected}
use asset_tracker.Auth.{AuthState, mount, handle_logout, login_start, login_settled, logout}
use asset_tracker.Auth.Guard.{Platform, is_token_expired, passes, redirects, check_auth}
use asset_tracker.Auth.Session.{
  Step, starts, settles, signs_out, is_refused, navigates, Reachable, mounted, next, after_guard,
}

abbrev pub stored : Storage → Option String
stored s = lookup "auth_token" s.items

-- The stored token is the provider's, or there is none.
pub record IsConsistent (s : AuthState) : Type 0 where
  pub open_storage : s.storage.denied ≡ false
  pub agrees : (stored s.storage ≡ none) ⊎ (stored s.storage ≡ s.token)

mount-IsConsistent : (storage : Storage) {s : AuthState} → mount storage ≡ some s → IsConsistent s
unfolding mount
mount-IsConsistent storage e = ground arith

-- The guard either leaves the storage as it was or erases the token.
pub after_guard-cases :
    (p : Platform) (now : ℕ) (path : String) (s : Storage)
    → (after_guard s (check_auth p now path s) ≡ s)
      ⊎ ((s.denied ≡ false)
          × (after_guard s (check_auth p now path s)
              ≡ record s { items = erase "auth_token" s.items }))
unfolding check_auth
after_guard-cases p now path s = ground arith

pub erased : (m : List (String × String)) → lookup "auth_token" (erase "auth_token" m) ≡ none
erased m = lookup-erase "auth_token" "auth_token" m

pub inserted :
    (v : String) (m : List (String × String))
    → lookup "auth_token" (insert "auth_token" v m) ≡ some v
inserted v m = lookup-insert "auth_token" "auth_token" v m

module _ (p : Platform) {B : Type 0} (token_of : B → Option String) where
  Step-IsConsistent : {s t : AuthState} → Step p token_of s t → IsConsistent s → IsConsistent t
  unfolding login_start login_settled logout handle_logout
  Step-IsConsistent starts h = record { open_storage = h.open_storage; agrees = h.agrees }
  Step-IsConsistent {s} (settles (resolved r)) h = elim (Option-cases (token_of r)) [
    | inl throws ↦ ground (arith, h.open_storage, h.agrees)
    | inr (t, read) ↦ ground (arith, inserted t s.storage.items)
  ]
  Step-IsConsistent (settles (rejected e)) h = record {
    open_storage = h.open_storage;
    agrees = h.agrees;
  }
  Step-IsConsistent {s} signs_out h = ground (arith, erased s.storage.items)
  Step-IsConsistent {s} is_refused h = ground (arith, erased s.storage.items)
  Step-IsConsistent {s} (navigates now path) h =
      ground (arith, after_guard-cases p now path s.storage, erased s.storage.items)

  -- In every state that a session reaches, by logins, logouts, refused calls and navigations in
  -- any order, the storage is open and the stored token is the provider's, or there is none.
  pub Reachable-IsConsistent : {s : AuthState} → Reachable p token_of s → IsConsistent s
  Reachable-IsConsistent (mounted storage s e) = mount-IsConsistent storage e
  Reachable-IsConsistent (next r st) = Step-IsConsistent st (Reachable-IsConsistent r)

check_auth_passes :
    (p : Platform) (now : ℕ) (path : String) (s s' : Storage)
    → path ≢ "/login"
    → check_auth p now path s ≡ passes s'
    → (t : String) × (stored s ≡ some t) × (t ≢ "") × (is_token_expired p now t ≡ false) × (s' ≡ s)
unfolding check_auth
check_auth_passes p now path s s' h e = elim (Option-cases (stored s)) [
  | inl absent ↦ absurd (ground (arith, eq_iff path "/login"))
  | inr (t, present) ↦ (
    t,
    present,
    ground (arith, eq_iff path "/login", eq_iff t ""),
    ground (arith, eq_iff path "/login", eq_iff t ""),
    ground (arith, eq_iff path "/login", eq_iff t ""),
  )
]

module _ (p : Platform) {B : Type 0} (token_of : B → Option String) where
  -- In a session, whenever the guard lets a navigation to a page other than /login pass, the
  -- provider holds a token, which is the stored one, is not empty and has not expired at that
  -- time; and the guard has left the storage as it was.
  pub check_auth-passes_token :
      (s : AuthState) (now : ℕ) (path : String) (s' : Storage)
      → Reachable p token_of s
      → path ≢ "/login"
      → check_auth p now path s.storage ≡ passes s'
      → (t : String) × (s.token ≡ some t)
        × (stored s.storage ≡ some t)
        × (t ≢ "")
        × (is_token_expired p now t ≡ false)
        × (s' ≡ s.storage)
  check_auth-passes_token s now path s' r h e =
      let (t, present, full, fresh, same) = check_auth_passes p now path s.storage s' h e in
      let c = Reachable-IsConsistent p token_of r in
      (t, ground (arith, c.agrees), present, full, fresh, same)

-- A redirect of the guard leads to /login, and there the guard, at any later time, lets the
-- navigation pass with the storage that the redirect left: no loop of redirects.
pub check_auth-redirects_once :
    (p : Platform) (now later : ℕ) (path to : String) (s s' : Storage)
    → check_auth p now path s ≡ redirects to s'
    → (to ≡ "/login") × (check_auth p later "/login" s' ≡ passes s')
unfolding check_auth
check_auth-redirects_once p now later path to s s' e =
    ground (arith, erased s.items, eq_iff path "/login")

-- After a logout, and after a call that was refused with a logout event, no page but /login is
-- let pass: from an open storage the provider has no token, and every other navigation is
-- redirected to /login, whatever the time.
pub logout-check_auth :
    (p : Platform) (now : ℕ) (path : String) (s : AuthState)
    → s.storage.denied ≡ false
    → path ≢ "/login"
    → ((logout s).token ≡ none)
      × (check_auth p now path (logout s).storage ≡ redirects "/login" (logout s).storage)
      × ((handle_logout s).token ≡ none)
      × (check_auth p now path (handle_logout s).storage
          ≡ redirects "/login" (handle_logout s).storage)
      × ((handle_logout s).href ≡ some "/login")
unfolding check_auth logout handle_logout
logout-check_auth p now path s h k = ground (arith, erased s.storage.items, eq_iff path "/login")

pub logout-passes_login :
    (p : Platform) (now : ℕ) (s : AuthState)
    → s.storage.denied ≡ false
    → check_auth p now "/login" (logout s).storage ≡ passes (logout s).storage
unfolding check_auth logout
logout-passes_login p now s h = ground (arith, erased s.storage.items)
