-- ===== src/Node/Server/Laws.antt =====
-- What a request comes to: an answer, or the end of the process.
use asset_tracker.Prelude.{
  Bool, false, ◌≡◌, refl, inl, inr, true, false, Option, none, some, String, ◌==◌, ◌&&◌, eq_iff,
  arith, Option-cases, if◌then◌else◌,
}
use asset_tracker.Node.Value.{Value}
use asset_tracker.Node.Repository.{EventRepository}
use asset_tracker.Node.Reply.{Response}
use asset_tracker.Node.Handler.{handle_post}
use asset_tracker.Node.Metrics.{MetricsHandler}
use asset_tracker.Node.Server.{
  Url, Request, Moment, Server, Outcome, crashed, replied, route, serve, count_request,
}

module _ {Store : Type 0} (r : EventRepository Store) (json_parse : String → Option Value) where
  -- The store is untouched, or it is left by the handler of a POST.
  data Touches (q : Request) (e : Moment) (s : Store) (out : Response × Store) : Type 0 where
    untouched : (x : Response) → out ≡ (x, s) → Touches q e s out
    posted :
        q.method ≡ "POST"
        → q.url ≡ "/events"
        → out ≡ handle_post r json_parse e.id e.now q.body s
        → Touches q e s out

  reading :
      (q : Request) (e : Moment) (s : Store) (b : Bool) (x : Response) (y : Response × Store)
      → Touches q e s y
      → Touches q e s (if b then (x, s) else y)
  reading q e s true x y k = untouched x refl
  reading q e s false x y k = k

  posting :
      (q : Request) (e : Moment) (s : Store) (b : Bool) (x : Response)
      → (b ≡ true → (q.method ≡ "POST") × (q.url ≡ "/events"))
      → Touches q e s (if b then handle_post r json_parse e.id e.now q.body s else (x, s))
  posting q e s true x h = let (m, u) = h refl in posted m u refl
  posting q e s false x h = untouched x refl

  is_post :
      (q : Request)
      → (q.url == "/events" && q.method == "POST") ≡ true
      → (q.method ≡ "POST") × (q.url ≡ "/events")
  is_post q h = ground (arith, eq_iff q.url "/events", eq_iff q.method "POST")

  route-Touches :
      (u : Url) (q : Request) (e : Moment) (m : MetricsHandler) (s : Store)
      → Touches q e s (route r json_parse u q e m s)
  unfolding route
  route-Touches u q e m s = reading q e s (q.method == "OPTIONS") _ _ (
      reading q e s (q.url == "/health" && q.method == "GET") _ _ (
        reading q e s (q.url == "/health/live" && q.method == "GET") _ _ (
          reading q e s (q.url == "/health/ready" && q.method == "GET") _ _ (
            reading q e s (q.url == "/metrics" && q.method == "GET") _ _ (
              reading q e s (u.pathname == "/metrics/requests" && q.method == "GET") _ _ (
                reading q e s (u.pathname == "/events" && q.method == "GET") _ _
                  (posting q e s (q.url == "/events" && q.method == "POST") _ (is_post q))))))))

  -- How the listener ends: it throws, and with it the process ends, or it answers. `u` is the
  -- parsed URL.
  pub data Served (parse_url : String → Option Url) (q : Request) (e : Moment) (v : Server Store)
      (out : Outcome Store) : Type 0 where
    fails : parse_url q.url ≡ none → out ≡ crashed → Served parse_url q e v out
    reads :
        (u : Url) (response : Response)
        → parse_url q.url ≡ some u
        → out ≡ replied response (record { metrics = count_request u v.metrics; store = v.store })
        → Served parse_url q e v out
    writes :
        (u : Url) (response : Response) (s : Store)
        → parse_url q.url ≡ some u
        → q.method ≡ "POST"
        → q.url ≡ "/events"
        → (response, s) ≡ handle_post r json_parse e.id e.now q.body v.store
        → out ≡ replied response (record { metrics = count_request u v.metrics; store = s })
        → Served parse_url q e v out

  -- A request whose URL cannot be parsed ends the process. Any other gets one answer, with the
  -- counter of requests raised unless it is a probe; and the store is as it was, unless the
  -- request is a POST of exactly /events, which its handler answers.
  pub serve-Served :
      (parse_url : String → Option Url) (q : Request) (e : Moment) (v : Server Store)
      → Served parse_url q e v (serve r json_parse parse_url q e v)
  unfolding serve
  serve-Served parse_url q e v = elim (Option-cases (parse_url q.url)) [
    | inl bad ↦ fails bad (rw bad refl)
    | inr (u, good) ↦ elim (route-Touches u q e (count_request u v.metrics) v.store) [
      | untouched x same ↦ reads u x good (rw (good, same) refl)
      | posted p w sent ↦
          let out = handle_post r json_parse e.id e.now q.body v.store in
          writes u out.0 out.1 good p w refl (rw (good, sent) refl)
    ]
  ]
