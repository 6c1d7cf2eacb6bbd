-- ===== src/Auth/Login.antt =====
-- The login page, web-ui/src/routes/login.tsx, with the mutation of
-- web-ui/src/hooks/use-auth.ts. The mutation is the query library's: it is pending from `mutate`
-- until its function settles, and then holds the error, if any. The form's fields are `required`,
-- a check that the browser makes before `handleSubmit` and that is left out.
use native.Mathlib.Decide.{ℕ_discrete}
use asset_tracker.Prelude.{
  inl, inr, Bool-cases, Option-cases, ℕ, ◌≤◌, ◌⊎◌, ◌≡◌, ◌≢◌, Bool, true, false, ◌++◌, Option, none,
  some, [], ◌∷◌, String, arith, nat_beq, if◌then◌else◌,
}
use asset_tracker.View.{View, heading, text, field, alert, button, clicks, alerts}
use asset_tracker.Api.Http.{Reply-cases, is_ok, network_failure, response, Fetch, api_error}
use asset_tracker.Api.Auth.{login}
use asset_tracker.Auth.{
  AuthState, LoginOutcome, logged_in, login_failed, login_start, login_settled,
}

pub record LoginPage (B : Type 0) : Type 0 where
  pub username : String
  pub password : String
  pub is_pending : Bool
  pub error : Option (LoginOutcome B)

pub data Event : Type 0 where
  set_username set_password : String → Event
  submit : Event

unfoldable pub edit : {B : Type 0} → Event → LoginPage B → LoginPage B
edit (set_username v) s = record s { username = v }
edit (set_password v) s = record s { password = v }
edit submit s = record s { is_pending = true; error = none }

-- The mutation's end: the page, and the address that it navigates to.
unfoldable pub finish : {B : Type 0} → LoginOutcome B → LoginPage B → LoginPage B × Option String
finish logged_in s = (record s { is_pending = false; error = none }, some "/devices")
finish o s = (record s { is_pending = false; error = some o }, none)

-- Of the errors only the one that the client throws has a `status`.
unfoldable pub error_message : {B : Type 0} → Option (LoginOutcome B) → Option String
error_message none = none
error_message (some (login_failed (api_error status body))) =
    some (if nat_beq status 401 then "Invalid credentials" else "An error occurred")
error_message (some _) = some "An error occurred"

abbrev message_view : Option String → View Event
message_view none = []
message_view (some m) = alert m ∷ []

unfoldable pub view : {B : Type 0} → LoginPage B → View Event
unfolding error_message
view s =
    heading "ASSET TRACKER"
    ∷ text "Sign in to your account"
    ∷ field "username" s.username set_username
    ∷ field "password" s.password set_password
    ∷ (message_view (error_message s.error)
        ++ button (if s.is_pending then "Signing in..." else "Sign in") s.is_pending submit ∷ [])

module _ {B : Type 0} (fetch : Fetch B) (token_of : B → Option String) where
  -- A whole attempt: `handleSubmit`, `useLogin`'s function, the provider's `login`.
  unfoldable pub attempt : LoginPage B → AuthState → LoginPage B × Option String × AuthState
  unfolding edit finish
  attempt page s =
      let (s', outcome) =
        login_settled token_of (login fetch page.username page.password).settled (login_start s) in
      let (page', to) = finish outcome (edit submit page) in (page', to, s')

  -- While the attempt runs the page offers nothing to click. Afterwards it does again, and, if
  -- the storage is open: a reply with a status from 200 to 299 and a readable body that has a token
  -- leads to /devices, shows no error, and that token is the provider's; status 401 with a readable
  -- body leads nowhere and shows "Invalid credentials" alone; any other reply, that of a body whose
  -- token cannot be read included, leads nowhere and shows "An error occurred" alone.
  pub attempt-view :
      (page : LoginPage B) (s : AuthState)
      → s.storage.denied ≡ false
      → let reply = fetch (login fetch page.username page.password).sent in
        let (page', to, s') = attempt page s in
        (clicks (view (edit submit page)) ≡ [])
        × (clicks (view page') ≡ submit ∷ [])
        × (((b : B) × (reply ≡ response 401 (some b))
              × (to ≡ none)
              × (alerts (view page') ≡ "Invalid credentials" ∷ []))
            ⊎ ((k : ℕ) × (b : B) × (t : String) × (reply ≡ response k (some b))
                × (200 ≤ k)
                × (k ≤ 299)
                × (token_of b ≡ some t)
                × (to ≡ some "/devices")
                × (alerts (view page') ≡ [])
                × (s'.token ≡ some t))
            ⊎ ((k : ℕ) × (b : B) × (reply ≡ response k (some b))
                × (200 ≤ k)
                × (k ≤ 299)
                × (token_of b ≡ none)
                × (to ≡ none)
                × (alerts (view page') ≡ "An error occurred" ∷ [])
                × (s'.token ≡ s.token))
            ⊎ ((k : ℕ) × (b : B) × (reply ≡ response k (some b))
                × (¬ ((200 ≤ k) × (k ≤ 299)))
                × (k ≢ 401)
                × (to ≡ none)
                × (alerts (view page') ≡ "An error occurred" ∷ []))
            ⊎ ((reply ≡ network_failure) ⊎ ((k : ℕ) × (reply ≡ response k none)))
              × (to ≡ none)
              × (alerts (view page') ≡ "An error occurred" ∷ []))
  unfolding attempt edit view error_message login login_settled login_start finish
  attempt-view page s h =
      elim (Reply-cases (fetch (login fetch page.username page.password).sent)) [
        | inl lost ↦ ground arith
        | inr (k, b, e) ↦ elim (ℕ_discrete k 401) [
          | yes refused ↦ ground arith
          | no other ↦ elim (Bool-cases (is_ok k)) [
            | inl fine ↦ elim (Option-cases (token_of b)) [
              | inl throws ↦ ground arith
              | inr (t, read) ↦ ground arith
            ]
            | inr failed ↦ ground arith
          ]
        ]
      ]
