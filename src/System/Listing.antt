-- ===== src/System/Listing.antt =====
-- The interface's readers of events, web-ui/src/lib/api/events.ts, with the service behind them.
use Prim.Native.String
use package.text.Mathlib.TextLemmas.{append_assoc}
use mathlib.Core.List.{Perm}
use asset_tracker.Prelude.{
  ◌≡◌, refl, ◌∙◌, ap, Bool, true, false, Option, none, some, List, [], ◌∷◌, String, filter,
}
use asset_tracker.Api.Http.{get, Request, Fetch, Settled, resolved, rejected, api_error}
use asset_tracker.Api.Events
use asset_tracker.Node.Value.{Value, text}
use asset_tracker.Node.Uuid.{is_uuid}
use asset_tracker.Node.Event.{Event}
use asset_tracker.Node.Repository.{EventRepository, Promises, IsDescending, equals}
use asset_tracker.Node.Reply.{Response, Body, error, events}
use asset_tracker.Node.Handler.{ended, handle_get}
use asset_tracker.Node.Server.{Url, Moment, Server, serve, serve_at, count_request}
use asset_tracker.System.Proxy.{differs-ne}
use asset_tracker.System.Wire.{Wire, answered, forwarded, reply_of, fetch_at, fetch_at-node}
use asset_tracker.System.Answering.{
  Answers, listed, refused, failed, deleted_is_filled, handle_get-device, handle_get-type,
  route-events,
}

-- How a call for events settles.
pub data Fetched (held : List Event) (nb : Value → Value → Bool) (is_asked : Bool)
    (keep : Event → Bool) (st : Settled (Option Body) Body) : Type 0 where
  lists :
      (es : List Event)
      → is_asked ≡ true
      → st ≡ resolved (some (events es))
      → Perm es (filter keep held)
      → IsDescending nb es
      → Fetched held nb is_asked keep st
  rejects :
      (m : String)
      → is_asked ≡ false
      → st ≡ rejected (api_error 400 (error m))
      → Fetched held nb is_asked keep st
  fails :
      is_asked ≡ true
      → st ≡ rejected (api_error 500 (error "internal server error"))
      → Fetched held nb is_asked keep st

-- The request of a reader.
abbrev reads : (url token : String) → Request
reads url token = record {
  method = get;
  url = url;
  headers =
      ("Content-Type", "application/json") ∷ ("Authorization", String.◌++◌ "Bearer " token) ∷ [];
  body = none;
}

Fetched-Answers :
    (held : List Event) (nb : Value → Value → Bool) (is_asked : Bool) (keep : Event → Bool)
    (fetch : Fetch Body) (url token : String) (x : Response)
    → fetch (reads url token) ≡ answered x
    → Answers held nb is_asked keep x
    → Fetched held nb is_asked keep (Events.auth_fetch fetch get url none token).settled
unfolding Events.auth_fetch
Fetched-Answers held nb is_asked keep fetch url token x k (listed es asked same p sorted) =
    lists es asked (rw (k ∙ ap answered same) refl) p sorted
Fetched-Answers held nb is_asked keep fetch url token x k (refused m asked same) =
    rejects m asked (rw (k ∙ ap answered same) refl)
Fetched-Answers held nb is_asked keep fetch url token x k (failed asked same) =
    fails asked (rw (k ∙ ap answered same) refl)

module _ (w : Wire) {Store : Type 0} (r : EventRepository Store) (held : Store → List Event)
    (nb : Value → Value → Bool) (h : Promises r held nb equals) (others : Fetch Body) (e : Moment)
    (v : Server Store) where
  -- A reader's request whose path is /events is answered by the handler.
  reads_events :
      (query token : String) (u : Url)
      → w.parse_url (String.◌++◌ "/events?" query) ≡ some u
      → u.pathname ≡ "/events"
      → fetch_at w r others e v
          (reads (String.◌++◌ "/api/node" (String.◌++◌ "/events?" query)) token)
        ≡ answered (handle_get r (u.param "deviceId") (u.param "type") v.store)
  unfolding serve
  reads_events query token u good path =
      let at_service = String.◌++◌ "/events?" query in
      fetch_at-node w r others e v (reads (String.◌++◌ "/api/node" at_service) token) at_service
        refl
      ∙ ap
          (λ found. reply_of w r others (
            serve_at r w.json_parse found
              (forwarded w (reads (String.◌++◌ "/api/node" at_service) token) at_service) e v))
          good
      ∙ ap (λ out. answered out.0)
          (route-events r w.json_parse u at_service (ended []) e (count_request u v.metrics) v.store
            (differs-ne "/health" "/events?" query refl refl)
            (differs-ne "/health/live" "/events?" query refl refl)
            (differs-ne "/health/ready" "/events?" query refl refl)
            (differs-ne "/metrics" "/events?" query refl refl) path)

  -- The events of a device, asked for in the interface and answered by the service behind the
  -- proxy. For a UUID the call resolves with exactly the stored events of that device, by descending
  -- timestamps, or rejects with 500 if the repository does; for any other text it rejects with 400.
  pub get_events-Fetched :
      (d token : String)
      → Fetched
          (held v.store)
          nb
          (is_uuid d)
          (λ x. equals d x.device_id)
          (Events.get_events (fetch_at w r others e v) w.encode d token).settled
  unfolding Events.get_events
  get_events-Fetched d token =
      let (u, good, path, device, kind) = w.parses_device d in
      let query = String.◌++◌ "deviceId=" (w.encode d) in
      let same_query : String.◌++◌ "/events?deviceId=" (w.encode d) ≡ String.◌++◌ "/events?" query =
        append_assoc "/events?" "deviceId=" (w.encode d) in
      let same_url : String.◌++◌ "/api/node/events?deviceId=" (w.encode d)
          ≡ String.◌++◌ "/api/node" (String.◌++◌ "/events?" query) =
        append_assoc "/api/node/events?" "deviceId=" (w.encode d)
        ∙ append_assoc "/api/node" "/events?" query in
      rw same_url (
        Fetched-Answers (held v.store) nb (is_uuid d) (λ x. equals d x.device_id)
          (fetch_at w r others e v) (String.◌++◌ "/api/node" (String.◌++◌ "/events?" query)) token
          (handle_get r (u.param "deviceId") (u.param "type") v.store)
          (reads_events query token u (rw same_query at good) path)
          (rw (device, kind) (handle_get-device r held nb h v.store d)))

  -- The deleted devices, likewise: the call resolves with exactly the stored events of the type
  -- "device.deleted", by descending timestamps, or rejects with 500 if the repository does.
  pub get_deleted_devices-Fetched :
      (token : String)
      → Fetched
          (held v.store)
          nb
          true
          (λ x. equals "device.deleted" x.type)
          (Events.get_deleted_devices (fetch_at w r others e v) token).settled
  unfolding Events.get_deleted_devices
  get_deleted_devices-Fetched token =
      let (u, good, path, device, kind) = w.parses_deleted in
      Fetched-Answers (held v.store) nb true (λ x. equals "device.deleted" x.type)
        (fetch_at w r others e v) "/api/node/events?type=device.deleted" token
        (handle_get r (u.param "deviceId") (u.param "type") v.store)
        (reads_events "type=device.deleted" token u good path)
        (rw (device, kind) (handle_get-type r held nb h v.store "device.deleted" deleted_is_filled))
