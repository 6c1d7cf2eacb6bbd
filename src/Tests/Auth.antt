-- ===== src/Tests/Auth.antt =====
-- The session and its route guard, on tokens whose payload is `JSON.parse` of a fixed text.
use asset_tracker.Api.Auth.{login}
use asset_tracker.View.{clicks, alerts}
use asset_tracker.Prelude.{
  ℕ, ◌≤◌, ◌⊎◌, ◌≡◌, refl, ◌≢◌, false, Option, none, some, [], ◌∷◌, String, eq_iff, arith,
  if◌then◌else◌, ◌==◌,
}
use asset_tracker.Number.{Number, whole, lt, times_1000}
use asset_tracker.Storage.{Storage, lookup, erase, get_item, remove_item}
use asset_tracker.Api.Http.{network_failure, Fetch, response}
use asset_tracker.Api.Laws.{list_devices, perform}
use asset_tracker.Auth.{mount, AuthState, mount, deliver}
use asset_tracker.Auth.Guard.{Platform, with_exp, split_dot, is_token_expired, passes, check_auth}
use asset_tracker.Auth.Session.{Reachable, mounted}
use asset_tracker.Auth.Laws.{
  stored, IsConsistent, Reachable-IsConsistent, check_auth-passes_token, check_auth-redirects_once,
}
use asset_tracker.Auth.Expiry.{Carries, is_token_expired_iff}
use asset_tracker.Auth.Refusal.{perform-deliver}
use asset_tracker.Auth.Login.{edit, view, submit, LoginPage, attempt, attempt-view}

-- The payload "p" expires at second 5; no other text is JSON.
abbrev browser : Platform
browser = record {
  atob = λ s. some s;
  json_parse = λ s. if s == "p" then some (with_exp (whole 5)) else none;
}

abbrev empty : Storage
empty = record { denied = false; items = [] }

abbrev holding : Storage
holding = record { denied = false; items = ("auth_token", "h.p.s") ∷ [] }

abbrev signed_in : AuthState
signed_in = record { token = some "h.p.s"; is_loading = false; storage = holding; href = none }

abbrev text_of : String → String
text_of s = s

abbrev token_of : String → Option String
token_of s = some s

abbrev unauthorised : Fetch String
unauthorised r = response 401 (some "unauthorized")

abbrev accepting : Fetch String
accepting r = response 200 (some "h.p.s")

signed_in-Reachable : Reachable browser token_of signed_in
unfolding mount get_item lookup
signed_in-Reachable = mounted holding signed_in refl

Reachable-IsConsistent_example : IsConsistent signed_in
Reachable-IsConsistent_example = Reachable-IsConsistent browser token_of signed_in-Reachable

let_pass : check_auth browser 4000 "/devices" holding ≡ passes holding
unfolding check_auth is_token_expired split_dot get_item lookup
let_pass = refl

check_auth-passes_token_example :
    (t : String) × (some "h.p.s" ≡ some t)
    × (stored holding ≡ some t)
    × (t ≢ "")
    × (is_token_expired browser 4000 t ≡ false)
    × (holding ≡ holding)
check_auth-passes_token_example =
    check_auth-passes_token browser token_of signed_in 4000 "/devices" holding signed_in-Reachable
      (ground (arith, eq_iff "/devices" "/login")) let_pass

check_auth-redirects_once_example :
    (◌≡◌ {A = String} "/login" "/login") × (check_auth browser 7000 "/login" empty ≡ passes empty)
unfolding check_auth is_token_expired split_dot get_item remove_item lookup erase
check_auth-redirects_once_example =
    check_auth-redirects_once browser 6000 7000 "/devices" "/login" holding empty refl

abbrev signed_out : AuthState
signed_out = record { token = none; is_loading = false; storage = empty; href = none }

fresh_until_5000 :
    (exp : Number) × Carries browser "h.p.s" exp × (lt (times_1000 exp) (whole 4000) ≡ false)
unfolding is_token_expired split_dot
fresh_until_5000 = (is_token_expired_iff browser 4000 "h.p.s").0 refl

is_token_expired_iff_example : is_token_expired browser 4000 "h.p.s" ≡ false
is_token_expired_iff_example = (is_token_expired_iff browser 4000 "h.p.s").1 fresh_until_5000

perform-deliver_example :
    let c = perform unauthorised text_of list_devices "h.p.s" in
    let s' = deliver c.dispatched signed_in in
    ((b : String) × (unauthorised c.sent ≡ response 401 (some b))
      × (s'.token ≡ none)
      × (stored s'.storage ≡ none)
      × (s'.href ≡ some "/login"))
    ⊎ (((b : String) → unauthorised c.sent ≢ response 401 (some b)) × (s' ≡ signed_in))
perform-deliver_example = perform-deliver unauthorised text_of list_devices "h.p.s" signed_in refl

abbrev typed : LoginPage String
typed = record { username = "ann"; password = "secret"; is_pending = false; error = none }

attempt-view_example :
    let reply = accepting (login accepting "ann" "secret").sent in
    let (page', to, s') = attempt accepting token_of typed signed_in in
    (clicks (view (edit submit typed)) ≡ [])
    × (clicks (view page') ≡ submit ∷ [])
    × (((b : String) × (reply ≡ response 401 (some b))
          × (to ≡ none)
          × (alerts (view page') ≡ "Invalid credentials" ∷ []))
        ⊎ ((k : ℕ) × (b : String) × (t : String) × (reply ≡ response k (some b))
            × (200 ≤ k)
            × (k ≤ 299)
            × (some b ≡ some t)
            × (to ≡ some "/devices")
            × (alerts (view page') ≡ [])
            × (s'.token ≡ some t))
        ⊎ ((k : ℕ) × (b : String) × (reply ≡ response k (some b))
            × (200 ≤ k)
            × (k ≤ 299)
            × (token_of b ≡ none)
            × (to ≡ none)
            × (alerts (view page') ≡ "An error occurred" ∷ [])
            × (s'.token ≡ signed_in.token))
        ⊎ ((k : ℕ) × (b : String) × (reply ≡ response k (some b))
            × (¬ ((200 ≤ k) × (k ≤ 299)))
            × (k ≢ 401)
            × (to ≡ none)
            × (alerts (view page') ≡ "An error occurred" ∷ []))
        ⊎ ((reply ≡ network_failure) ⊎ ((k : ℕ) × (reply ≡ response k none)))
          × (to ≡ none)
          × (alerts (view page') ≡ "An error occurred" ∷ []))
attempt-view_example = attempt-view accepting token_of typed signed_in refl
