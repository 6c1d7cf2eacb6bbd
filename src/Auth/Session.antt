-- ===== src/Auth/Session.antt =====
-- A session in the browser as a step relation: the provider's operations and the route guard
-- that runs on each navigation, in any order. Another tab that writes the same storage is left
-- out.
use asset_tracker.Prelude.{ℕ, ◌≡◌, String, Option, some}
use asset_tracker.Storage.{Storage}
use asset_tracker.Api.Http.{Settled}
use asset_tracker.Auth.{AuthState, mount, handle_logout, login_start, login_settled, logout}
use asset_tracker.Auth.Guard.{Platform, Verdict, threw, passes, redirects, check_auth}

-- The storage that the guard leaves.
abbrev pub after_guard : Storage → Verdict → Storage
after_guard s threw = s
after_guard s (passes t) = t
after_guard s (redirects to t) = t

module _ (p : Platform) {B : Type 0} (token_of : B → Option String) where
  pub data Step (s : AuthState) : AuthState → Type 0 where
    starts : Step s (login_start s)
    settles : (r : Settled B B) → Step s (login_settled token_of r s).0
    signs_out : Step s (logout s)
    is_refused : Step s (handle_logout s)
    navigates :
        (now : ℕ) (pathname : String)
        → Step s
            (record s { storage = after_guard s.storage (check_auth p now pathname s.storage) })

  pub data Reachable : AuthState → Type 0 where
    mounted : (storage : Storage) (s : AuthState) → mount storage ≡ some s → Reachable s
    next : {s t : AuthState} → Reachable s → Step s t → Reachable t
