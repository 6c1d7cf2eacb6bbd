-- ===== src/Node/Handler.antt =====
-- The handler of /events, node-service/src/interfaces/event-handler.js. `JSON.parse` is a
-- parameter; `none` where it throws.
pub mod Laws
pub mod Listing
use Prim.Native.String
use asset_tracker.Prelude.{
  ◌&&◌, not, Option, none, some, List, [], ◌∷◌, String, truthy, or_else, if◌then◌else◌,
}
use asset_tracker.Node.Value.{Value}
use asset_tracker.Node.Event.{Event}
use asset_tracker.Node.Repository.{EventRepository}
use asset_tracker.Node.UseCases.{
  Result, returned, invalid, failed, log_event, list_by_device, list_by_type,
}
use asset_tracker.Node.Reply.{Response, error, event, events}

-- The body of a request as it comes in: chunks, as texts, and then the end or an error.
pub data Incoming : Type 0 where
  ended : (chunks : List String) → Incoming
  broken : Incoming

-- `Buffer.concat(chunks).toString()`
abbrev pub concat : List String → String
concat [] = ""
concat (c ∷ cs) = String.◌++◌ c (concat cs)

unfoldable pub parse_body : (String → Option Value) → Incoming → Option Value
parse_body json_parse (ended chunks) = json_parse (concat chunks)
parse_body json_parse broken = none

abbrev pub answer_post : Result Event → Response
answer_post (returned e) = record { status = 201; body = event e }
answer_post (invalid m) = record { status = 400; body = error m }
answer_post failed = record { status = 500; body = error "internal server error" }

abbrev pub answer_get : Result (List Event) → Response
answer_get (returned es) = record { status = 200; body = events es }
answer_get (invalid m) = record { status = 400; body = error m }
answer_get failed = record { status = 500; body = error "internal server error" }

module _ {Store : Type 0} (r : EventRepository Store) where
  unfoldable pub handle_post :
      (json_parse : String → Option Value) → (id now : String) → Incoming → Store → Response × Store
  unfolding parse_body log_event
  handle_post json_parse id now incoming s = elim (parse_body json_parse incoming) [
    | none ↦ (record { status = 400; body = error "invalid JSON body" }, s)
    | some v ↦ let (result, s') = log_event r id now v s in (answer_post result, s')
  ]

  -- The parameters of the query; `none` is null.
  unfoldable pub handle_get : (device_id type : Option String) → Store → Response
  unfolding list_by_device list_by_type
  handle_get device_id type s =
      if not (truthy (or_else device_id "")) && not (truthy (or_else type ""))
      then record { status = 400; body = error "deviceId or type is required" }
      else if truthy (or_else type "")
      then answer_get (list_by_type r (or_else type "") s)
      else answer_get (list_by_device r (or_else device_id "") s)
