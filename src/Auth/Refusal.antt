-- ===== src/Auth/Refusal.antt =====
-- The clients of devices.ts and events.ts with the provider that listens to them.
use asset_tracker.Prelude.{
  ◌≡◌, refl, ◌≢◌, ◌⊎◌, inl, inr, false, Option, none, some, List, [], ◌∷◌, String, arith,
}
use asset_tracker.Api.Http.{Reply, response, Fetch, auth_logout, WindowEvent, Settled}
use asset_tracker.Api.Laws.{
  Operation, perform, perform-Answers, Answers, lost, no_content, unreadable, answered,
  unauthorised, refused,
}
use asset_tracker.Auth.{AuthState, handle_logout, deliver}
use asset_tracker.Auth.Laws.{stored, erased}

logs_out :
    {B : Type 0} (reply : Reply B) (st : Settled (Option B) B) (ev : List WindowEvent)
    → Answers reply st ev
    → ((b : B) × (reply ≡ response 401 (some b)) × (ev ≡ auth_logout ∷ []))
      ⊎ (((b : B) → reply ≢ response 401 (some b)) × (ev ≡ []))
logs_out reply st ev (lost e _ none_sent) = inr (λ b e'. cc, none_sent)
logs_out reply st ev (no_content body e _ none_sent) = inr (λ b e'. ground arith, none_sent)
logs_out reply st ev (unreadable k _ e _ none_sent) = inr (λ b e'. cc, none_sent)
logs_out reply st ev (answered k b _ low high e _ none_sent) =
    inr (λ b' e'. absurd (ground arith), none_sent)
logs_out reply st ev (unauthorised b e _ sent) = inl (b, e, sent)
logs_out reply st ev (refused k b _ other e _ none_sent) =
    inr (λ b' e'. other (ground arith), none_sent)

-- An authorised call and the events that it dispatches leave the provider as it was, unless the
-- reply has status 401 and a body that can be read. In that case, from an open storage, the
-- provider's token and the stored one are both gone and the browser is sent to /login.
pub perform-deliver :
    {B : Type 0} (fetch : Fetch B) (encode : String → String) (op : Operation) (t : String)
    (s : AuthState)
    → s.storage.denied ≡ false
    → let c = perform fetch encode op t in
      let s' = deliver c.dispatched s in
      ((b : B) × (fetch c.sent ≡ response 401 (some b))
        × (s'.token ≡ none)
        × (stored s'.storage ≡ none)
        × (s'.href ≡ some "/login"))
      ⊎ (((b : B) → fetch c.sent ≢ response 401 (some b)) × (s' ≡ s))
unfolding deliver handle_logout
perform-deliver fetch encode op t s h =
    elim (logs_out _ _ _ (perform-Answers fetch encode op t).1) [
      | inl (b, e, ev) ↦
          rw ev (inl (b, e, ground arith, ground (arith, erased s.storage.items), ground arith))
      | inr (never, ev) ↦ rw ev (inr (never, refl))
    ]
