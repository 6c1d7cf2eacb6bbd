-- ===== src/System/Answering.antt =====
-- What the service answers to a GET of the events: the handler of
-- node-service/src/interfaces/event-handler.js, and the route of node-service/src/index.js to it.
use mathlib.Core.List.{Perm}
use asset_tracker.Prelude.{
  ◌≡◌, ◌≢◌, refl, ap, Bool, true, false, Option, none, some, List, String, ◌==◌, eq_iff, filter,
  truthy, arith, Bool-cases, Option-cases, inl, inr,
}
use asset_tracker.Node.Value.{Value, text, is_filled, is_blank}
use asset_tracker.Node.Uuid.{is_uuid, is_filled-is_uuid}
use asset_tracker.Node.Event.{Event}
use asset_tracker.Node.Repository.{EventRepository, Promises, IsDescending, equals}
use asset_tracker.Node.UseCases.{list_by_device, list_by_type}
use asset_tracker.Node.Reply.{Response, error, events}
use asset_tracker.Node.Handler.{Incoming, handle_get}
use asset_tracker.Node.Handler.Listing.{truthy_of_filled}
use asset_tracker.Node.Metrics.{MetricsHandler}
use asset_tracker.Node.Server.{Url, Moment, route}

-- An answer of the service to a GET of the events that `keep` picks.
pub data Answers (held : List Event) (nb : Value → Value → Bool) (is_asked : Bool)
    (keep : Event → Bool) (x : Response) : Type 0 where
  listed :
      (es : List Event)
      → is_asked ≡ true
      → x ≡ record { status = 200; body = events es }
      → Perm es (filter keep held)
      → IsDescending nb es
      → Answers held nb is_asked keep x
  refused :
      (m : String)
      → is_asked ≡ false
      → x ≡ record { status = 400; body = error m }
      → Answers held nb is_asked keep x
  failed :
      is_asked ≡ true
      → x ≡ record { status = 500; body = error "internal server error" }
      → Answers held nb is_asked keep x

not_filled : (d : String) → truthy d ≡ false → is_filled (text d) ≡ false
unfolding is_filled
not_filled d h = ground arith

not_uuid : (d : String) → is_filled (text d) ≡ false → is_uuid d ≡ false
not_uuid d h = ground (arith, is_filled-is_uuid d)

module _ {Store : Type 0} (r : EventRepository Store) (held : Store → List Event)
    (nb : Value → Value → Bool) (h : Promises r held nb equals) (s : Store) where
  pub handle_get-device :
      (d : String)
      → Answers (held s) nb (is_uuid d) (λ e. equals d e.device_id) (handle_get r (some d) none s)
  unfolding handle_get list_by_device
  handle_get-device d = elim (Bool-cases (truthy d)) [
    | inr absent ↦
        refused "deviceId or type is required" (not_uuid d (not_filled d absent)) (ground arith)
    | inl there ↦ elim (Bool-cases (is_filled (text d))) [
      | inr blank ↦ refused "deviceId is required" (not_uuid d blank) (ground arith)
      | inl full ↦ elim (Bool-cases (is_uuid d)) [
        | inr wrong ↦ refused "deviceId must be a valid UUID v4" wrong (ground arith)
        | inl uuid ↦ elim (Option-cases (r.find_by_device_id d s)) [
          | inl broken ↦ failed uuid (ground arith)
          | inr (es, found) ↦
              let (p, sorted) = h.of_device d s es found in listed es uuid (ground arith) p sorted
        ]
      ]
    ]
  ]

  pub handle_get-type :
      (t : String)
      → is_filled (text t) ≡ true
      → Answers (held s) nb true (λ e. equals t e.type) (handle_get r none (some t) s)
  unfolding handle_get list_by_type
  handle_get-type t full =
      let there = truthy_of_filled t full in
      elim (Option-cases (r.find_by_type t s)) [
        | inl broken ↦ failed refl (ground arith)
        | inr (es, found) ↦
            let (p, sorted) = h.of_type t s es found in listed es refl (ground arith) p sorted
      ]

pub deleted_is_filled : is_filled (text "device.deleted") ≡ true
unfolding is_filled is_blank
deleted_is_filled = refl

other_text : (s t : String) → s ≢ t → (s == t) ≡ false
other_text s t h = ground (arith, eq_iff s t)

-- A GET whose path is /events reaches its handler, whatever its query.
pub route-events :
    {Store : Type 0} (r : EventRepository Store) (json_parse : String → Option Value) (u : Url)
    (url : String) (body : Incoming) (e : Moment) (m : MetricsHandler) (s : Store)
    → url ≢ "/health"
    → url ≢ "/health/live"
    → url ≢ "/health/ready"
    → url ≢ "/metrics"
    → u.pathname ≡ "/events"
    → route r json_parse u (record { method = "GET"; url = url; body = body }) e m s
      ≡ (handle_get r (u.param "deviceId") (u.param "type") s, s)
unfolding route
route-events r json_parse u url body e m s a b c d path =
    let here : (u.pathname == "/events") ≡ true = ap (λ (t : String). t == "/events") path in
    let elsewhere : (u.pathname == "/metrics/requests") ≡ false =
      ap (λ (t : String). t == "/metrics/requests") path in
    rw
      (
        other_text url "/health" a,
        other_text url "/health/live" b,
        other_text url "/health/ready" c,
        other_text url "/metrics" d,
        elsewhere,
        here,
      )
      refl
