-- ===== src/Auth.antt =====
-- The session: web-ui/src/context/AuthContext.tsx (the provider's state and its operations) and,
-- below it, the route guard of web-ui/src/routes/__root.tsx and the login page.
pub mod Guard
pub mod Expiry
pub mod Refusal
pub mod Login
pub mod Session
pub mod Laws
use asset_tracker.Prelude.{
  ◌≡◌, Bool, true, false, Option, none, some, List, [], ◌∷◌, String, is_some,
}
use asset_tracker.Storage.{Storage, get_item, set_item, remove_item}
use asset_tracker.Api.Http.{Failure, Settled, resolved, rejected, WindowEvent, auth_logout}

abbrev pub storage_key : String
storage_key = "auth_token"

-- The provider's `token` and `isLoading`, the browser's storage, and the address last assigned
-- to `window.location.href`.
pub record AuthState : Type 0 where
  pub token : Option String
  pub is_loading : Bool
  pub storage : Storage
  pub href : Option String

unfoldable pub is_authenticated : AuthState → Bool
is_authenticated s = is_some s.token

-- Mounting the provider; `none` where reading the storage throws.
unfoldable pub mount : Storage → Option AuthState
unfolding get_item
mount storage = elim (get_item storage_key storage) [
  | none ↦ none
  | some token ↦ some (record { token = token; is_loading = false; storage = storage; href = none })
]

-- Where removing the item throws, the token is already gone and the address is not assigned.
unfoldable pub handle_logout : AuthState → AuthState
unfolding remove_item
handle_logout s = elim (remove_item storage_key s.storage) [
  | none ↦ record s { token = none }
  | some storage ↦ record s { token = none; storage = storage; href = some "/login" }
]

-- How the promise of `login` settles.
pub data LoginOutcome (B : Type 0) : Type 0 where
  logged_in storage_denied body_refused : LoginOutcome B
  login_failed : Failure B → LoginOutcome B

-- `login` up to its `await`.
unfoldable pub login_start : AuthState → AuthState
login_start s = record s { is_loading = true }

-- `login` from its `await` on; `token_of` is `response.token`, `none` where the body is null and
-- reading it throws.
unfoldable pub login_settled :
    {B : Type 0} → (B → Option String) → Settled B B → AuthState → AuthState × LoginOutcome B
unfolding set_item
login_settled token_of (rejected e) s = (record s { is_loading = false }, login_failed e)
login_settled token_of (resolved r) s = elim (token_of r) [
  | none ↦ (record s { is_loading = false }, body_refused)
  | some t ↦ elim (set_item storage_key t s.storage) [
    | none ↦ (record s { token = some t; is_loading = false }, storage_denied)
    | some storage ↦ (record s { token = some t; is_loading = false; storage = storage }, logged_in)
  ]
]

unfoldable pub logout : AuthState → AuthState
unfolding remove_item
logout s = elim (remove_item storage_key s.storage) [
  | none ↦ record s { token = none }
  | some storage ↦ record s { token = none; storage = storage }
]

-- The events that a call dispatches on `window` run the provider's listener.
unfoldable pub deliver : List WindowEvent → AuthState → AuthState
unfolding handle_logout
deliver [] s = s
deliver (auth_logout ∷ es) s = deliver es (handle_logout s)
