-- ===== src/System/Creating.antt =====
-- Creating an event in the interface, and listing it afterwards.
use Prim.Native.String
use mathlib.Core.List.{Mem, mem-cons_self}
use mathlib.Core.List.Perm
use asset_tracker.Prelude.{
  ◌≡◌, refl, ◌∙◌, ap, sym, subst, ◌⊎◌, inl, inr, Bool, true, false, Option, some, List, [], ◌∷◌,
  String, ◌==◌, eq_refl,
}
use asset_tracker.Api.Http.{
  post, Json, Request, Fetch, Settled, resolved, rejected, api_error, response,
}
use asset_tracker.Api.Events
use asset_tracker.Api.Events.{CreateEventInput, event_json}
use asset_tracker.Node.Value.{Value, text, object}
use asset_tracker.Node.Event.{Event, event_of}
use asset_tracker.Node.Event.Laws.{event_of-IsComplete}
use asset_tracker.Node.Repository.{EventRepository, Promises, equals}
use asset_tracker.Node.Reply.{Response, Body, event, events, error}
use asset_tracker.Node.Handler.{Incoming, ended, handle_post}
use asset_tracker.Node.Handler.Laws.{
  Posted, malformed, without_fields, not_valid, stored, not_stored, handle_post-Posted,
}
use asset_tracker.Node.Handler.Listing.{mem-filter_true}
use asset_tracker.Node.Metrics.{MetricsHandler}
use asset_tracker.Node.Server.{
  Url, Moment, Server, with_metrics, route, serve, serve_at, count_request,
}
use asset_tracker.Node.Gateway.{
  parsed, same_params, IsAcceptable-IsValid, fields_of, IsAcceptable, params, post_reply,
  created_lem,
}
use asset_tracker.System.Wire.{
  Wire, answered, forwarded, reply_of, store_of, fetch_at, store_after, fetch_at-node,
  store_after-node,
}
use asset_tracker.System.Listing.{Fetched, lists, rejects, fails, get_events-Fetched}

-- The request of `createEvent`.
abbrev pub creates : CreateEventInput → (token : String) → Request
creates input token = record {
  method = post;
  url = "/api/node/events";
  headers =
      ("Content-Type", "application/json") ∷ ("Authorization", String.◌++◌ "Bearer " token) ∷ [];
  body = some (event_json input);
}

-- A POST of exactly /events reaches its handler.
route-posted :
    {Store : Type 0} (r : EventRepository Store) (json_parse : String → Option Value) (u : Url)
    (body : Incoming) (e : Moment) (m : MetricsHandler) (s : Store)
    → u.pathname ≡ "/events"
    → route r json_parse u (record { method = "POST"; url = "/events"; body = body }) e m s
      ≡ handle_post r json_parse e.id e.now body s
unfolding route
route-posted r json_parse u body e m s path =
    let here : (u.pathname == "/events") ≡ true = ap (λ (t : String). t == "/events") path in
    let elsewhere : (u.pathname == "/metrics/requests") ≡ false =
      ap (λ (t : String). t == "/metrics/requests") path in
    rw (elsewhere, here) refl

-- Each answer to a POST has a body.
answered-Posted :
    {Store : Type 0} (r : EventRepository Store) (json_parse : String → Option Value)
    (id now : String) (i : Incoming) (s : Store) (out : Response × Store)
    → Posted r json_parse id now i s out
    → answered out.0 ≡ response out.0.status (some out.0.body)
answered-Posted r json_parse id now i s out (malformed _ o) = rw o refl
answered-Posted r json_parse id now i s out (without_fields _ _ _ o) = rw o refl
answered-Posted r json_parse id now i s out (not_valid _ _ _ _ _ _ o) = rw o refl
answered-Posted r json_parse id now i s out (stored _ _ _ _ _ _ o) = rw o refl
answered-Posted r json_parse id now i s out (not_stored _ _ _ _ _ _ o) = rw o refl

module _ {Store : Type 0} (r : EventRepository Store) (json_parse : String → Option Value)
    (stringify : Json → String)
    (reads_back : (j : Json) → json_parse (stringify j) ≡ some (object (fields_of j)))
    (id now : String) (s : Store) (input : CreateEventInput) (good : IsAcceptable input)
    (saved : (r.save (event_of id now (params input)) s).0 ≡ true) where
  created_reply : handle_post r json_parse id now (ended (stringify (event_json input) ∷ [])) s ≡ (
    record { status = 201; body = event (event_of id now (params input)) },
    (r.save (event_of id now (params input)) s).1,
  )
  created_reply =
      let read = parsed r json_parse stringify reads_back id now s input in
      let valid = IsAcceptable-IsValid input good in
      let same = same_params r json_parse stringify reads_back id now s input in
      elim (handle_post-Posted r json_parse id now (ended (stringify (event_json input) ∷ [])) s) [
        | malformed e out ↦ absurd (cc)
        | without_fields v e n out ↦
            let here : object (fields_of (event_json input)) ≡ v = cc in
            absurd (elim n [ inl u ↦ cc | inr u ↦ cc ])
        | not_valid v p m e f bad out ↦ absurd (bad (rw (same v p e f) at valid))
        | stored v p e f ok done out ↦ out ∙ (rw (← same v p e f) refl)
        | not_stored v p e f ok failed out ↦ let here = rw (← same v p e f) at failed in absurd (cc)
      ]

  accepted_settled :
      (token : String)
      → (Events.create_event
          (post_reply r json_parse stringify reads_back id now s)
          input
          token).settled
        ≡ resolved (some (event (event_of id now (params input))))
  accepted_settled token =
      created_lem r json_parse stringify reads_back id now s input token
        (event (event_of id now (params input))) (ap (λ x. x.0) created_reply)

module _ (w : Wire) {Store : Type 0} (r : EventRepository Store) (others : Fetch Body) (e : Moment)
    (v : Server Store) where
  served :
      (input : CreateEventInput) (token : String)
      → (m : MetricsHandler) × (serve r w.json_parse w.parse_url
            (forwarded w (creates input token) "/events")
            e
            v
          ≡ with_metrics r w.json_parse m (
              handle_post r w.json_parse e.id e.now
                (ended (w.stringify (event_json input) ∷ []))
                v.store))
  unfolding serve
  served input token =
      let (u, good, path, _) = w.parses_endpoint "/events" refl in
      let i = ended (w.stringify (event_json input) ∷ []) in
      let m = count_request u v.metrics in
      (
        m,
        ap
              (λ found.
                serve_at r w.json_parse found (forwarded w (creates input token) "/events") e v)
              good
            ∙ ap (with_metrics r w.json_parse m) (route-posted r w.json_parse u i e m v.store path),
      )

  fetch_at-creates :
      (input : CreateEventInput) (token : String)
      → fetch_at w r others e v (creates input token)
        ≡ post_reply r w.json_parse w.stringify w.reads_back e.id e.now v.store
            (creates input token)
  fetch_at-creates input token =
      let i = ended (w.stringify (event_json input) ∷ []) in
      fetch_at-node w r others e v (creates input token) "/events" refl
      ∙ ap (reply_of w r others) (served input token).1
      ∙ answered-Posted r w.json_parse e.id e.now i v.store
          (handle_post r w.json_parse e.id e.now i v.store)
          (handle_post-Posted r w.json_parse e.id e.now i v.store)

  pub store_after-creates :
      (input : CreateEventInput) (token : String)
      → store_after w r others e v (creates input token)
        ≡ (handle_post r w.json_parse e.id e.now
            (ended (w.stringify (event_json input) ∷ []))
            v.store).1
  store_after-creates input token =
      store_after-node w r others e v (creates input token) "/events" refl
      ∙ ap (store_of w r others v.store) (served input token).1

  pub settled-creates :
      (input : CreateEventInput) (token : String)
      → (Events.create_event (fetch_at w r others e v) input token).settled
        ≡ (Events.create_event
            (post_reply r w.json_parse w.stringify w.reads_back e.id e.now v.store)
            input
            token).settled
  unfolding Events.create_event Events.auth_fetch
  settled-creates input token = rw (fetch_at-creates input token) refl

  -- What a creation does that the service accepts and the repository saves.
  stored-creates :
      (input : CreateEventInput) (token : String)
      → IsAcceptable input
      → (r.save (event_of e.id e.now (params input)) v.store).0 ≡ true
      → ((Events.create_event (fetch_at w r others e v) input token).settled
          ≡ resolved (some (event (event_of e.id e.now (params input)))))
        × (store_after w r others e v (creates input token)
            ≡ (r.save (event_of e.id e.now (params input)) v.store).1)
  stored-creates input token good saved =
      let made = event_of e.id e.now (params input) in
      let reply =
        created_reply r w.json_parse w.stringify w.reads_back e.id e.now v.store input good saved in
      (
        settled-creates input token
            ∙ accepted_settled r w.json_parse w.stringify w.reads_back e.id e.now v.store input good
                saved token,
        store_after-creates input token ∙ ap (λ x. x.1) reply,
      )

module _ (w : Wire) {Store : Type 0} (r : EventRepository Store) (held : Store → List Event)
    (nb : Value → Value → Bool) (h : Promises r held nb equals) (others : Fetch Body) where
  lists_made :
      (made : Event) (d : String) (s : List Event) (st : Settled (Option Body) Body)
      → made.device_id ≡ text d
      → Mem made s
      → Fetched s nb true (λ x. equals d x.device_id) st
      → ((es : List Event) × (st ≡ resolved (some (events es))) × Mem made es)
        ⊎ (st ≡ rejected (api_error 500 (error "internal server error")))
  lists_made made d s st same m (lists es _ found p _) = inl (
    es,
    found,
    (Perm.mem_iff p).1
        (mem-filter_true (λ x. equals d x.device_id) made s (rw (same, eq_refl d) refl) m),
  )
  lists_made made d s st same m (rejects _ wrong _) = absurd (cc)
  lists_made made d s st same m (fails _ found) = inr found

  -- An event that is created in the interface and saved by the service shows up there: the creation
  -- resolves with it, and when the interface next asks for the events of that device, whatever
  -- requests that leave the store alone come between, the call resolves with a list that has the
  -- event in it, or rejects with 500 because the repository does.
  pub get_events-create_event :
      (e e' : Moment) (v v' : Server Store) (input : CreateEventInput) (token token' : String)
      → IsAcceptable input
      → (r.save (event_of e.id e.now (params input)) v.store).0 ≡ true
      → v'.store ≡ store_after w r others e v (creates input token)
      → let made = event_of e.id e.now (params input) in
        let asked =
          (Events.get_events (fetch_at w r others e' v') w.encode input.device_id token').settled in
        ((Events.create_event (fetch_at w r others e v) input token).settled
          ≡ resolved (some (event made)))
        × (((es : List Event) × (asked ≡ resolved (some (events es))) × Mem made es)
            ⊎ (asked ≡ rejected (api_error 500 (error "internal server error"))))
  get_events-create_event e e' v v' input token token' good saved next =
      let made = event_of e.id e.now (params input) in
      let (settled, after) = stored-creates w r others e v input token good saved in
      let there : Mem made (held v'.store) =
        subst (λ s. Mem made (held s)) (sym (next ∙ after))
          ((Perm.mem_iff
              (h.saved made v.store (event_of-IsComplete e.id e.now (params input)) saved)).1
            mem-cons_self) in
      (
        settled,
        lists_made made input.device_id (held v'.store) _ refl there (
            rw good.device_id_uuid at
              (get_events-Fetched w r held nb h others e' v' input.device_id token')),
      )
