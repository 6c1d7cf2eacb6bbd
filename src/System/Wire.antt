-- ===== src/System/Wire.antt =====
-- A request of the interface on its way: the proxy, the listener of the Node service, and the reply
-- that `fetch` gives. Everything but the Node service's own code is in `Wire` and `others`.
use Prim.Native.String
use asset_tracker.Prelude.{
  ◌≡◌, refl, ◌∙◌, ap, Bool, true, false, Option, none, some, List, [], ◌∷◌, String, ◌==◌, is_some,
  any, if◌then◌else◌,
}
use asset_tracker.Api.Http.{
  Method, get, post, put, delete, Json, Request, Reply, network_failure, response, Fetch,
}
use asset_tracker.Node.Value.{Value, object}
use asset_tracker.Node.Repository.{EventRepository}
use asset_tracker.Node.Reply.{Response, Body, no_body}
use asset_tracker.Node.Handler.{Incoming, ended}
use asset_tracker.Node.Server.{
  Url, Request as NodeRequest, Moment, Server, Outcome, crashed, replied, serve,
}
use asset_tracker.Node.Gateway.{fields_of}
use asset_tracker.System.Proxy.{
  without, node_target, proxy_rules, proxy, without-append, without-differs,
}

-- The paths without a query that the interface asks of the Node service.
abbrev pub endpoints : List String
endpoints = "/events" ∷ "/health/ready" ∷ "/metrics" ∷ "/metrics/requests" ∷ []

-- What the browser, the proxy and Node's runtime give, as documented: which rule of the proxy a
-- request meets, `encodeURIComponent`, `new URL` on the paths that the interface asks for, and
-- `JSON`, which reads back an object of texts.
pub record Wire : Type 0 where
  pub matches : (context url : String) → Bool
  pub encode : String → String
  pub parse_url : String → Option Url
  pub json_parse : String → Option Value
  pub stringify : Json → String
  pub matches_start : (k url : String) → matches k url ≡ is_some (without k url)
  pub parses_endpoint :
      (p : String)
      → any (λ k. k == p) endpoints ≡ true
      → (u : Url) × (parse_url p ≡ some u) × (u.pathname ≡ p) × ((k : String) → u.param k ≡ none)
  pub parses_device :
      (d : String)
      → (u : Url) × (parse_url (String.◌++◌ "/events?deviceId=" (encode d)) ≡ some u)
        × (u.pathname ≡ "/events")
        × (u.param "deviceId" ≡ some d)
        × (u.param "type" ≡ none)
  pub parses_deleted :
      (u : Url) × (parse_url "/events?type=device.deleted" ≡ some u)
      × (u.pathname ≡ "/events")
      × (u.param "deviceId" ≡ none)
      × (u.param "type" ≡ some "device.deleted")
  pub reads_back : (j : Json) → json_parse (stringify j) ≡ some (object (fields_of j))

abbrev pub method_text : Method → String
method_text get = "GET"
method_text post = "POST"
method_text put = "PUT"
method_text delete = "DELETE"

-- The reply that an answer of the service is for `fetch`.
abbrev pub answered : Response → Reply Body
answered x = response x.status (elim x.body [ no_body ↦ none | b ↦ some b ])

module _ (w : Wire) where
  abbrev pub incoming : Option Json → Incoming
  incoming none = ended []
  incoming (some j) = ended (w.stringify j ∷ [])

  -- A request as the service receives it.
  abbrev pub forwarded : Request → (path : String) → NodeRequest
  forwarded q path = record { method = method_text q.method; url = path; body = incoming q.body }

  module _ {Store : Type 0} (r : EventRepository Store) (others : Fetch Body) where
    abbrev pub reply_of : Outcome Store → Reply Body
    reply_of crashed = network_failure
    reply_of (replied x v) = answered x

    -- A process that ended has lost its counters, not its store.
    abbrev pub store_of : Store → Outcome Store → Store
    store_of s crashed = s
    store_of s (replied x v) = v.store

    abbrev pub serve_request : Request → String → Moment → Server Store → Outcome Store
    serve_request q path e v = serve r w.json_parse w.parse_url (forwarded q path) e v

    abbrev pub answer_at : Moment → Server Store → Request → Option (String × String) → Reply Body
    answer_at e v q none = others q
    answer_at e v q (some (target, path)) =
        if target == node_target then reply_of (serve_request q path e v) else others q

    -- `fetch` in the browser, while the service is in a state; `others` answers what the proxy
    -- does not hand to it.
    unfoldable pub fetch_at : Moment → Server Store → Fetch Body
    unfolding proxy
    fetch_at e v q = answer_at e v q (proxy w.matches q.url)

    abbrev kept_at : Moment → Server Store → Request → Option (String × String) → Store
    kept_at e v q none = v.store
    kept_at e v q (some (target, path)) =
        if target == node_target then store_of v.store (serve_request q path e v) else v.store

    -- The store after that request.
    unfoldable pub store_after : Moment → Server Store → Request → Store
    unfolding proxy
    store_after e v q = kept_at e v q (proxy w.matches q.url)

  -- What the interface sends to /api/node reaches the service under the rest of its address.
  pub proxy-node :
      (rest : String) → proxy w.matches (String.◌++◌ "/api/node" rest) ≡ some (node_target, rest)
  unfolding proxy proxy_rules
  proxy-node rest =
      let url = String.◌++◌ "/api/node" rest in
      let go_missed : w.matches "/api/go" url ≡ false =
        w.matches_start "/api/go" url
        ∙ ap is_some (without-differs "/api/go" "/api/node" rest refl) in
      let node_met : w.matches "/api/node" url ≡ true =
        w.matches_start "/api/node" url ∙ ap is_some (without-append "/api/node" rest) in
      rw (go_missed, node_met, without-append "/api/node" rest) refl

  module _ {Store : Type 0} (r : EventRepository Store) (others : Fetch Body) (e : Moment)
      (v : Server Store) where
    pub fetch_at-node :
        (q : Request) (rest : String)
        → q.url ≡ String.◌++◌ "/api/node" rest
        → fetch_at r others e v q ≡ reply_of r others (serve_request r others q rest e v)
    unfolding fetch_at
    fetch_at-node q rest h =
        ap (answer_at r others e v q) (ap (proxy w.matches) h ∙ proxy-node rest)

    pub store_after-node :
        (q : Request) (rest : String)
        → q.url ≡ String.◌++◌ "/api/node" rest
        → store_after r others e v q ≡ store_of r others v.store (serve_request r others q rest e v)
    unfolding store_after
    store_after-node q rest h =
        ap (kept_at r others e v q) (ap (proxy w.matches) h ∙ proxy-node rest)
