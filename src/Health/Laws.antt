-- ===== src/Health/Laws.antt =====
-- How a health check of the client ends in a status, and the worst of two statuses.
use asset_tracker.Prelude.{
  inl, inr, Bool-cases, ◌==◌, ℕ, ◌≤◌, ◌≡◌, ◌⊎◌, true, false, Option, none, some, String, eq_iff,
  arith, is_some, if◌then◌else◌,
}
use asset_tracker.Api.Http.{
  Reply-cases, is_ok, network_failure, response, Fetch, Failure, fetch_failed, bad_json, api_error,
  type_error as made, Settled, resolved, rejected,
}
use asset_tracker.Api.Health.{Service, get_health}
use asset_tracker.Query.{Thrown, type_error, object, primitive}
use asset_tracker.Health.{
  HealthStatus, healthy, offline, unhealthy, stale, classify_health, is_fetch_error_message,
  worst_status,
}

-- The thrown value of a failure: what `fetch` rejects with is a `TypeError`, what
-- `response.json()` rejects with is an object with a message, and `{ status, body }` has none.
abbrev pub thrown : {B : Type 0} → (syntax : String) → Failure B → Thrown
thrown syntax fetch_failed = type_error syntax
thrown syntax bad_json = object (some syntax)
thrown syntax (api_error status body) = object none
thrown syntax (made m) = type_error m

module _ {B : Type 0} (lower : String → String) (status_of : B → String) (syntax : String) where
  -- The status that follows a health check, when the last check that resolved, if any, gave
  -- `before`: the query keeps that data while it reports an error.
  abbrev pub status_after : Option B → Settled B B → HealthStatus
  status_after before (resolved b) = classify_health lower false (some (status_of b)) primitive
  status_after before (rejected e) =
      classify_health lower true (elim before [ none ↦ none | some b ↦ some (status_of b) ])
        (thrown syntax e)

  -- A check of a service is offline exactly if no reply comes or its body cannot be read. With a
  -- readable body it is healthy if the HTTP status is from 200 to 299 and the body says "ok",
  -- unhealthy if it says anything else; at any other HTTP status it is stale if an earlier check
  -- resolved, and unhealthy if none did.
  pub classify-get_health :
      (fetch : Fetch B) (s : Service) (before : Option B)
      → let c = get_health fetch s in
        let st = status_after before c.settled in
        let reply = fetch c.sent in
        (((reply ≡ network_failure) ⊎ ((k : ℕ) × (reply ≡ response k none))) × (st ≡ offline))
        ⊎ ((k : ℕ) × (b : B) × (reply ≡ response k (some b))
            × (200 ≤ k)
            × (k ≤ 299)
            × (st ≡ (if status_of b == "ok" then healthy else unhealthy)))
        ⊎ ((k : ℕ) × (b : B) × (reply ≡ response k (some b))
            × (¬ ((200 ≤ k) × (k ≤ 299)))
            × (st ≡ (if is_some before then stale else unhealthy)))
  unfolding get_health classify_health is_fetch_error_message
  classify-get_health fetch s before = elim (Reply-cases (fetch (get_health fetch s).sent)) [
    | inl lost ↦ inl (lost, ground arith)
    | inr (k, b, e) ↦ elim (Bool-cases (is_ok k)) [
      | inl fine ↦
          inr (inl (k, b, e, ground arith, ground arith, ground (arith, eq_iff (status_of b) "ok")))
      | inr failed ↦ inr (inr (k, b, e, (λ (low, high). ground arith), ground arith))
    ]
  ]

-- How bad a status is.
abbrev pub badness : HealthStatus → ℕ
badness healthy = 0
badness stale = 1
badness unhealthy = 2
badness offline = 3

-- The badge shows one of the two statuses, and neither is worse.
worst_status-badness :
    (a b : HealthStatus)
    → ((worst_status a b ≡ a) ⊎ (worst_status a b ≡ b))
      × (badness a ≤ badness (worst_status a b))
      × (badness b ≤ badness (worst_status a b))
unfolding worst_status
worst_status-badness a b = ground arith
