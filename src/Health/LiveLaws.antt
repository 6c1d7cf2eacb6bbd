-- ===== src/Health/LiveLaws.antt =====
-- What the bar of live metrics shows.
use asset_tracker.Prelude.{
  ◌⊎◌, ℕ, ◌<◌, ◌≡◌, refl, ◌≢◌, ◌↔◌, false, Option, none, some, [], String, arith, Option-cases, inl,
  inr,
}
use asset_tracker.Query.{Query}
use asset_tracker.View.{View}
use asset_tracker.Api.Health.{Service, go, node}
use asset_tracker.Trace.{no_filters}
use asset_tracker.Health.{HealthStatus, healthy, worst_status}
use asset_tracker.Health.Live.{
  LiveFormats, LiveMetrics, Totals, Event, opens, closes, update, badge, err_rate, requests_of,
  errors_of,
}

-- The bar has a badge exactly if one of the two services is not healthy.
pub badge-healthy :
    (a b : HealthStatus) → (◌≡◌ {A = View Event} (badge a b) []) ↔ ((a ≡ healthy) × (b ≡ healthy))
unfolding badge worst_status
badge-healthy a b = ground arith

err_rate_inv :
    (fm : LiveFormats) (ro eo : Option ℕ) (s : String)
    → err_rate fm ro eo ≡ some s
    → (r : ℕ) × (e : ℕ) × (ro ≡ some r) × (eo ≡ some e) × (0 < r) × (s ≡ fm.rate e r)
unfolding err_rate
err_rate_inv fm none eo s h = absurd (cc)
err_rate_inv fm (some r) none s h = absurd (cc)
err_rate_inv fm (some r) (some e) s h = (r, e, refl, refl, ground arith, ground arith)

requests_of_inv :
    (q : Query Totals) (r : ℕ)
    → requests_of q ≡ some r
    → (q.is_error ≡ false) × ((t : Totals) × (q.content ≡ some t) × (t.requests_total ≡ some r))
unfolding requests_of
requests_of_inv q r h = elim (Option-cases q.content) [
  | inl e ↦ absurd (ground arith)
  | inr (t, e) ↦ (ground arith, (t, e, ground arith))
]

-- An error rate is shown exactly if the metrics did not fail and give both totals, with at least
-- one request: there is no division by zero.
err_rate-some :
    (fm : LiveFormats) (q : Query Totals) (s : String)
    → (err_rate fm (requests_of q) (errors_of q) ≡ some s) ↔ (
        (q.is_error ≡ false)
        × ((t : Totals) × (r : ℕ) × (e : ℕ) × (q.content ≡ some t)
            × (t.requests_total ≡ some r)
            × (t.errors_total ≡ some e)
            × (0 < r)
            × (s ≡ fm.rate e r)))
unfolding err_rate requests_of errors_of
err_rate-some fm q s = (
  λ h.
      let (r, e, hr, he, pos, shown) = err_rate_inv fm (requests_of q) (errors_of q) s h in
      let (fine, (t, known, requests)) = requests_of_inv q r hr in
      (fine, (t, r, e, known, requests, ground arith, pos, shown)),
  λ h. ground arith,
)

Service-cases : (o : Option Service) (s : Service) → (o ≡ some s) ⊎ (o ≢ some s)
Service-cases none s = inr (λ e. cc)
Service-cases (some go) go = inl refl
Service-cases (some node) node = inl refl
Service-cases (some go) node = inr (λ e. cc)
Service-cases (some node) go = inr (λ e. cc)

-- Opening the dialog for another service than the one it shows, and closing it, drops the filters
-- of the trace table; opening it again for the same service keeps them.
update-filters :
    (m : LiveMetrics) (s : Service)
    → ((m.detail_service ≢ some s) × ((update (opens s) m).filters ≡ no_filters)
        ⊎ (m.detail_service ≡ some s) × (update (opens s) m ≡ m))
      × ((update (opens s) m).detail_service ≡ some s)
      × ((update (opens s) (update closes m)).filters ≡ no_filters)
      × ((update closes m).detail_service ≡ none)
unfolding update
update-filters m s = elim (Service-cases m.detail_service s) [
  | inl same ↦ ground arith
  | inr other ↦ (inl (other, ground arith), ground arith, ground arith, ground arith)
]
