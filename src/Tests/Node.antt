-- ===== src/Tests/Node.antt =====
-- The Node service over a repository in memory.
use mathlib.Core.List.{Perm}
use asset_tracker.Prelude.{
  false, ℕ, ◌≡◌, refl, map, ◌==◌, true, Option, none, some, List, [], ◌∷◌, ◌++◌, String,
  if◌then◌else◌,
}
use asset_tracker.Api.Http.{Json}
use asset_tracker.Api.Events.{CreateEventInput}
use asset_tracker.Node.Value.{Fields, undefined, text, is_blank, is_filled}
use asset_tracker.Node.Uuid.{is_uuid, match_classes}
use asset_tracker.Node.Event.{Params, Event, event_of, create_event}
use asset_tracker.Node.Event.Laws.{Judged, create_event-Judged}
use asset_tracker.Node.Repository.{
  EventRepository, to_document, Promises, equals, mongo_event_repository, held_by,
}
use asset_tracker.Node.Repository.Memory.{memory, not_before}
use asset_tracker.Node.Repository.Refines.{mongo_event_repository-Promises}
use asset_tracker.Node.UseCases.{params_of, log_event}
use asset_tracker.Node.Reply.{event, detail}
use asset_tracker.Node.Handler.{Incoming, ended, parse_body, handle_post, handle_get}
use asset_tracker.Node.Handler.Laws.{Posted, handle_post-Posted}
use asset_tracker.Node.Handler.Listing.{Lists, handle_get-handle_post}
use asset_tracker.Node.Metrics.{MetricsHandler, new_metrics, handle_requests}
use asset_tracker.Node.Metrics.Laws.{
  take, newest_first, IsLimit, asked_for, handle_requests-newest_first,
}
use asset_tracker.Node.Health.{resolves}
use asset_tracker.Prelude.{length, ◌+◌}
use asset_tracker.Node.Logging
use asset_tracker.Node.Logging.{arrive, complete}
use asset_tracker.Node.Logging.Laws.{
  seen_trace, business_lines, failed_seen, urls, Reachable-business_lines,
}
use asset_tracker.Node.Server.Counting.{count_business}
use asset_tracker.Node.Server.{Url, Request, Moment, Server, serve, count_request, finish}
use asset_tracker.Node.Server.Counting.{
  arrives, finishes, Reachable, started, next, IsCounted, Reachable-IsCounted,
}
use asset_tracker.Node.Server.Laws.{Served, serve-Served}
use asset_tracker.Node.Consumer.{Message, consume, Attempt}
use asset_tracker.Node.Consumer.Laws.{events_of, consume-Perm}
use asset_tracker.Node.Lifecycle.{Environment, World}
use asset_tracker.Tests.Codec.{stringify, json_parse}

abbrev pub uuid : String
uuid = "550e8400-e29b-41d4-a716-446655440000"

abbrev pub repository : EventRepository (List Fields)
repository = mongo_event_repository memory

mongo_event_repository-Promises_example :
    Promises (mongo_event_repository memory) (held_by memory) not_before equals
mongo_event_repository-Promises_example = mongo_event_repository-Promises memory

abbrev filled_params : Params
filled_params = record {
  type = text "device.created";
  device_id = text uuid;
  name = text "drill";
  timestamp = text "2026-01-01T00:00:00Z";
  actor = undefined;
  description = undefined;
}

create_event-Judged_example :
    Judged "e1" "now" filled_params (create_event "e1" "now" filled_params)
create_event-Judged_example = create_event-Judged "e1" "now" filled_params

abbrev message_json : Json
message_json =
    ("type", "device.created")
    ∷ ("deviceId", uuid)
    ∷ ("name", "drill")
    ∷ ("timestamp", "2026-01-01T00:00:00Z")
    ∷ []

abbrev posted_body : Incoming
posted_body = ended (stringify message_json ∷ [])

handle_post-Posted_example :
    Posted repository json_parse "e1" "now" posted_body []
      (handle_post repository json_parse "e1" "now" posted_body [])
handle_post-Posted_example = handle_post-Posted repository json_parse "e1" "now" posted_body []

abbrev made : Event
made = event_of "e1" "now" filled_params

posted_creates :
    handle_post repository json_parse "e1" "now" posted_body []
    ≡ (record { status = 201; body = event made }, to_document made ∷ [])
unfolding handle_post parse_body log_event params_of create_event mongo_event_repository is_filled
    is_blank is_uuid match_classes
posted_creates = refl

handle_get-handle_post_example :
    (d : String) × (t : String) × (made.device_id ≡ text d)
    × (made.type ≡ text t)
    × Lists made (handle_get repository (some d) none (to_document made ∷ []))
    × Lists made (handle_get repository none (some t) (to_document made ∷ []))
handle_get-handle_post_example =
    handle_get-handle_post repository json_parse "e1" "now" (held_by memory) not_before
      (mongo_event_repository-Promises memory) posted_body [] (to_document made ∷ []) made none
      posted_creates

abbrev pub counted_metrics : MetricsHandler
counted_metrics = record { requests = 3; errors = 1; traces = [] }

handle_requests-newest_first_example :
    (k : ℕ) × IsLimit (asked_for (some "2")) k
    × (handle_requests (some "2") counted_metrics
        ≡ record { status = 200; body = detail 3 1 (map some (take k (newest_first []))) })
handle_requests-newest_first_example = handle_requests-newest_first (some "2") counted_metrics

abbrev pub events_url : Url
events_url = record { pathname = "/events"; param = λ k. none }

pub one_finished : Reachable (record {
  metrics = finish events_url "GET" 404 7 "now" (count_request events_url new_metrics);
  open_requests = [];
})
one_finished =
    next (next started (arrives events_url)) (finishes [] [] events_url "GET" "now" 404 7 refl)

Reachable-IsCounted_example : IsCounted (record {
  metrics = finish events_url "GET" 404 7 "now" (count_request events_url new_metrics);
  open_requests = [];
})
Reachable-IsCounted_example = Reachable-IsCounted one_finished

abbrev parse_url : String → Option Url
parse_url s = if s == "//" then none else some (record { pathname = s; param = λ k. none })

abbrev posted_request : Request
posted_request = record { method = "POST"; url = "/events"; body = posted_body }

abbrev pub moment : Moment
moment = record { id = "e1"; now = "now"; ping = resolves 3 }

abbrev pub empty_server : Server (List Fields)
empty_server = record { metrics = counted_metrics; store = [] }

serve-Served_example :
    Served repository json_parse parse_url posted_request moment empty_server
      (serve repository json_parse parse_url posted_request moment empty_server)
serve-Served_example =
    serve-Served repository json_parse parse_url posted_request moment empty_server

-- A message without a value, one with an unknown type and one of a device.
abbrev messages : List Message
messages =
    record { value = none; id = "e0"; now = "now" }
    ∷ record { value = some (stringify (("type", "other") ∷ [])); id = "e1"; now = "now" }
    ∷ record { value = some (stringify message_json); id = "e2"; now = "now" }
    ∷ []

consume-Perm_example :
    Perm
      (held_by memory (consume repository json_parse messages []))
      (events_of json_parse messages ++ [])
unfolding mongo_event_repository
consume-Perm_example =
    consume-Perm repository json_parse (held_by memory) not_before
      (mongo_event_repository-Promises memory) messages [] (λ e t. refl)

abbrev attempt : Attempt
attempt = record { makes = true; connects = true; subscribes = true; runs = true }

abbrev pub form_input : CreateEventInput
form_input = record {
  type = "device.created";
  device_id = uuid;
  name = "drill";
  actor = some "Ann";
  description = none;
}

abbrev environment : Environment
environment = record {
  port = some "8081";
  mongo_uri = none;
  mongo_db = none;
  kafka_broker = some "kafka:9092";
  kafka_topic = none;
  kafka_consumer_group = none;
}

-- The database is up, and Kafka fails when the consumer subscribes.
abbrev world : World
world = record {
  makes_client = true;
  mongo_connects = true;
  opens_collection = true;
  kafka_imports = true;
  makes_kafka = true;
  attempt = record { makes = true; connects = true; subscribes = false; runs = false };
}

abbrev logged_request : Request
logged_request = record { method = "POST"; url = "/events"; body = posted_body }

abbrev logged_traffic : Logging.Traffic
logged_traffic =
    record (complete logged_request events_url 404 7 8 "now" (
      arrive logged_request events_url
        (record { metrics = new_metrics; log = []; open_requests = [] }))) { open_requests = [] }

one_logged : Logging.Reachable parse_url logged_traffic
unfolding arrive
one_logged =
    Logging.next (Logging.next Logging.started (Logging.arrives logged_request events_url refl))
      (Logging.finishes [] [] logged_request events_url 404 7 8 "now" refl)

Reachable-business_lines_example :
    (map seen_trace logged_traffic.metrics.traces ≡ business_lines parse_url logged_traffic.log)
    × (logged_traffic.metrics.requests
        ≡ length (business_lines parse_url logged_traffic.log) + count_business (urls []))
    × (logged_traffic.metrics.errors ≡ failed_seen (business_lines parse_url logged_traffic.log))
Reachable-business_lines_example = Reachable-business_lines parse_url one_logged
