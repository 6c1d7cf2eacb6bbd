-- ===== src/Tests/System.antt =====
-- The whole system at concrete requests, with the repository in memory.
use asset_tracker.Prelude.{All, ◌≡◌, refl, true, none, some, List, [], ◌∷◌, map, ◌≤◌}
use asset_tracker.Api.Http.{resolved}
use asset_tracker.Api.Health.{node, get_health}
use asset_tracker.Api.Metrics.{get_metrics_detail}
use asset_tracker.Api.Events
use asset_tracker.Api.Events.{event_json}
use asset_tracker.Health.{healthy}
use asset_tracker.Health.Laws.{status_after}
use asset_tracker.Hooks.Calls.{events}
use asset_tracker.Node.Value.{is_filled, is_blank}
use asset_tracker.Node.Uuid.{is_uuid, match_classes}
use asset_tracker.Node.Event.{Event, event_of, create_event}
use asset_tracker.Node.UseCases.{log_event, list_by_device}
use asset_tracker.Node.Repository.{equals, mongo_event_repository, held_by}
use asset_tracker.Node.Repository.Memory.{memory, not_before}
use asset_tracker.Node.Reply.{events as listing, detail}
use asset_tracker.Node.Handler.{ended, handle_post, handle_get, parse_body}
use asset_tracker.Node.Metrics.{MetricsHandler, new_metrics}
use asset_tracker.Node.Metrics.Laws.{take, newest_first}
use asset_tracker.Node.Server.{Server, count_request, finish, serve, route}
use asset_tracker.System.Wire.{fetch_at, store_after}
use asset_tracker.System.Listing.{Fetched, get_events-Fetched}
use asset_tracker.System.Creating.{creates}
use asset_tracker.System.Settling.{Settles, create_event-Settles}
use asset_tracker.System.Probing.{status_of, status_after-get_health, get_metrics_detail-Reachable}
use asset_tracker.System.Typing
use asset_tracker.System.Typing.{is_event, Reachable, get_events-AllFit}
use asset_tracker.Tests.Node.{
  uuid, repository, form_input, moment, empty_server, counted_metrics, events_url, one_finished,
}
use asset_tracker.Node.Consumer.{Message, consume}
use asset_tracker.Api.Http.{Json}
use asset_tracker.Node.Value.{object, Fields}
use asset_tracker.Node.Gateway.{fields_of}
use asset_tracker.Node.Consumer.{message_params}
use asset_tracker.System.Proxy.{proxy, proxy_rules}
use asset_tracker.Tests.Codec.{stringify, json_parse}
use asset_tracker.Tests.Wire.{wire, offline, promised}

abbrev served_metrics : MetricsHandler
served_metrics = finish events_url "GET" 404 7 "now" (count_request events_url new_metrics)

abbrev later_server : Server (List Fields)
later_server = record {
  metrics = counted_metrics;
  store = store_after wire repository offline moment empty_server (creates form_input "t");
}

get_events-Fetched_example :
    Fetched [] not_before
      (is_uuid uuid)
      (λ x. equals uuid x.device_id)
      (Events.get_events
        (fetch_at wire repository offline moment empty_server)
        wire.encode
        uuid
        "t").settled
unfolding mongo_event_repository
get_events-Fetched_example =
    get_events-Fetched wire repository (held_by memory) not_before promised offline moment
      empty_server uuid "t"

status_after-get_health_example :
    status_after
      (λ s. s)
      status_of
      "bad JSON"
      none
      (get_health (fetch_at wire repository offline moment empty_server) node).settled
    ≡ healthy
status_after-get_health_example =
    status_after-get_health wire repository offline moment empty_server (λ s. s) "bad JSON" none

get_metrics_detail-Reachable_example :
    ((get_metrics_detail
        (fetch_at wire repository offline moment (record { metrics = served_metrics; store = [] }))
        (λ n. "5")
        node
        none).settled
      ≡ resolved (
          detail served_metrics.requests served_metrics.errors
            (map some (take 50 (newest_first served_metrics.traces)))))
    × (served_metrics.errors ≤ served_metrics.requests)
get_metrics_detail-Reachable_example =
    get_metrics_detail-Reachable wire repository offline moment [] (λ n. "5") one_finished

abbrev stored_store : List Fields
stored_store =
    (handle_post repository json_parse "e1" "now" (ended (stringify (event_json form_input) ∷ []))
      []).1

stored-Reachable : Reachable repository wire (held_by memory) not_before promised stored_store
stored-Reachable = Typing.creates [] "e1" "now" form_input (Typing.empty [] refl)

abbrev stored_server : Server (List Fields)
stored_server = record { metrics = counted_metrics; store = stored_store }

lists_stored :
    (Events.get_events
      (fetch_at wire repository offline moment stored_server)
      wire.encode
      uuid
      "t").settled
    ≡ resolved (some (listing (held_by memory stored_store)))
unfolding Events.get_events Events.auth_fetch fetch_at proxy proxy_rules serve route handle_get
    list_by_device mongo_event_repository is_uuid match_classes is_filled is_blank handle_post
    parse_body log_event create_event
lists_stored = refl

get_events-AllFit_example : All (λ e. is_event e ≡ true) (held_by memory stored_store)
get_events-AllFit_example =
    get_events-AllFit repository wire (held_by memory) not_before promised offline moment
      stored_server uuid "t" (held_by memory stored_store) stored-Reachable lists_stored

abbrev deletion : Json
deletion =
    ("type", "device.deleted") ∷ ("deviceId", uuid) ∷ ("name", "drill") ∷ ("timestamp", "now") ∷ []

abbrev deletion_message : Message
deletion_message = record { value = some (stringify deletion); id = "e2"; now = "now" }

-- A message without a value, and one of a deletion.
abbrev messages : List Message
messages = record { value = none; id = "e0"; now = "now" } ∷ deletion_message ∷ []

abbrev deleted_event : Event
deleted_event = event_of "e2" "now" (message_params (object (fields_of deletion)))

abbrev consumed_server : Server (List Fields)
consumed_server = record {
  metrics = counted_metrics;
  store = consume repository json_parse messages [];
}

create_event-Settles_example :
    Settles repository moment.id moment.now form_input []
      (store_after wire repository offline moment empty_server (creates form_input "t"))
      (Events.create_event
        (fetch_at wire repository offline moment empty_server)
        form_input
        "t").settled
create_event-Settles_example =
    create_event-Settles wire repository offline moment empty_server form_input "t"
