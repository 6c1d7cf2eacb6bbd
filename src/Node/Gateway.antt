-- ===== src/Node/Gateway.antt =====
-- The input of the form as the service reads it: what web-ui/src/lib/api/events.ts sends, handed to
-- node-service/src/interfaces/event-handler.js. `stringify` is `JSON.stringify` of an object of
-- texts, which `JSON.parse` reads back. How a request gets there is System.Wire.
use package.text.Mathlib.TextLemmas.{append-nil}
use asset_tracker.Prelude.{
  ℕ, ◌≤◌, ◌≡◌, refl, true, Option, none, some, [], ◌∷◌, String, arith, or_else,
}
use asset_tracker.Api.Http.{Json, Fetch, response, resolved, rejected, api_error}
use asset_tracker.Api.Events
use asset_tracker.Api.Events.{CreateEventInput, event_json}
use asset_tracker.Node.Value.{Value, undefined, text, object, Fields, end, field, is_filled}
use asset_tracker.Node.Uuid.{is_uuid}
use asset_tracker.Node.Event.{Params}
use asset_tracker.Node.Event.Laws.{IsValid}
use asset_tracker.Node.Repository.{EventRepository}
use asset_tracker.Node.UseCases.{params_of}
use asset_tracker.Node.Reply.{Body}
use asset_tracker.Node.Handler.{ended, parse_body, handle_post}

abbrev pub fields_of : Json → Fields
fields_of [] = end
fields_of ((k, v) ∷ j) = field k (text v) (fields_of j)

abbrev pub optional_text : Option String → Value
optional_text none = undefined
optional_text (some s) = text s

abbrev pub params : CreateEventInput → Params
params input = record {
  type = text input.type;
  device_id = text input.device_id;
  name = text input.name;
  timestamp = undefined;
  actor = optional_text input.actor;
  description = optional_text input.description;
}

params_of-event_json :
    (input : CreateEventInput)
    → params_of (object (fields_of (event_json input))) ≡ some (params input)
unfolding params_of
params_of-event_json input = ground arith

-- What the service wants of the input of the form.
pub record IsAcceptable (input : CreateEventInput) : Type 0 where
  pub type_filled : is_filled (text input.type) ≡ true
  pub device_id_uuid : is_uuid input.device_id ≡ true
  pub name_filled : is_filled (text input.name) ≡ true

pub IsValid-IsAcceptable : (input : CreateEventInput) → IsValid (params input) → IsAcceptable input
IsValid-IsAcceptable input h = record {
  type_filled = ground (arith, h.type_text, h.type_filled);
  device_id_uuid = ground (arith, h.device_id_text, h.device_id_uuid);
  name_filled = ground (arith, h.name_text, h.name_filled);
}

pub IsAcceptable-IsValid : (input : CreateEventInput) → IsAcceptable input → IsValid (params input)
IsAcceptable-IsValid input h = record {
  type = input.type;
  device_id = input.device_id;
  name = input.name;
  type_text = refl;
  device_id_text = refl;
  name_text = refl;
  type_filled = h.type_filled;
  device_id_uuid = h.device_id_uuid;
  name_filled = h.name_filled;
}

module _ {Store : Type 0} (r : EventRepository Store) (json_parse : String → Option Value)
    (stringify : Json → String)
    (reads_back : (j : Json) → json_parse (stringify j) ≡ some (object (fields_of j)))
    (id now : String) (s : Store) where
  -- The reply of `handlePost` to the body of a request, which System.Wire sends to it.
  abbrev pub post_reply : Fetch Body
  post_reply q =
      let out = handle_post r json_parse id now (ended (stringify (or_else q.body []) ∷ [])) s in
      response out.0.status (some out.0.body)

  pub parsed :
      (input : CreateEventInput)
      → parse_body json_parse (ended (stringify (event_json input) ∷ []))
        ≡ some (object (fields_of (event_json input)))
  unfolding parse_body
  parsed input = rw (append-nil (stringify (event_json input))) (reads_back (event_json input))

  pub created_lem :
      (input : CreateEventInput) (token : String) (b : Body)
      → (handle_post r json_parse id now (ended (stringify (event_json input) ∷ [])) s).0
        ≡ record { status = 201; body = b }
      → (Events.create_event post_reply input token).settled ≡ resolved (some b)
  unfolding Events.create_event Events.auth_fetch
  created_lem input token b h = ground arith

  pub rejected_lem :
      (input : CreateEventInput) (token : String) (k : ℕ) (b : Body)
      → (handle_post r json_parse id now (ended (stringify (event_json input) ∷ [])) s).0
        ≡ record { status = k; body = b }
      → 400 ≤ k
      → (Events.create_event post_reply input token).settled ≡ rejected (api_error k b)
  unfolding Events.create_event Events.auth_fetch
  rejected_lem input token k b h high = ground arith

  -- The same input of the form, as the service reads it.
  pub same_params :
      (input : CreateEventInput) (v : Value) (p : Params)
      → parse_body json_parse (ended (stringify (event_json input) ∷ [])) ≡ some v
      → params_of v ≡ some p
      → params input ≡ p
  same_params input v p h k =
      let here : object (fields_of (event_json input)) ≡ v = cc (parsed input) in
      cc (params_of-event_json input)
