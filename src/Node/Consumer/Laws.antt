-- ===== src/Node/Consumer/Laws.antt =====
-- Which messages of a topic end up in the store, and what starting twice leaves behind.
use mathlib.Core.List.{Perm, perm_middle}
use mathlib.Core.List.Perm
use asset_tracker.Prelude.{
  Option-cases, All, ◌≡◌, refl, Bool, true, ◌&&◌, Option, none, some, List, [], ◌∷◌, ◌++◌, String,
  ◌==◌, eq_iff, arith, ap, ◌∙◌, Bool-cases, inl, inr, if◌then◌else◌, length,
}
use asset_tracker.Node.Value.{
  Value, undefined, null, text, property, is_truthy, is_filled, is_blank,
}
use asset_tracker.Node.Uuid.{is_filled-is_uuid}
use asset_tracker.Node.Event.{
  Event, created, validation_error, is_uuid_text, event_of, create_event,
}
use asset_tracker.Node.Event.Laws.{event_of-IsComplete}
use asset_tracker.Node.Repository.{EventRepository, Promises, equals, IsComplete}
use asset_tracker.Node.Consumer.{
  is_known_type, is_text_value, validate, message_params, Message, handle_parsed, handle_message,
  consume, Consumer, ClientState, Attempt, reached, start, stop, set_client, disconnected,
}

-- A message that is worth an event: one of the three types, the UUID of a device, a name with more
-- than white space and a timestamp that is a text.
abbrev pub is_wanted : Value → Bool
is_wanted v =
    is_known_type (property "type" v)
    && is_uuid_text (property "deviceId" v)
    && is_filled (property "name" v)
    && is_text_value (property "timestamp" v)
    && is_truthy (property "timestamp" v)

filled_of_uuid : (v : Value) → is_uuid_text v ≡ true → is_filled v ≡ true
filled_of_uuid (text s) h = is_filled-is_uuid s h
filled_of_uuid v h = absurd (cc)

filled_of_known :
    (v : Value)
    → is_known_type v ≡ true
    → (is_filled v ≡ true) × (is_truthy v ≡ true) × (is_text_value v ≡ true)
unfolding is_filled is_blank
filled_of_known (text t) h = elim (Bool-cases ("device.created" == t)) [
  | inl a ↦ rw (← (eq_iff "device.created" t).0 a) (refl, refl, refl)
  | inr a ↦ elim (Bool-cases ("device.updated" == t)) [
    | inl b ↦ rw (← (eq_iff "device.updated" t).0 b) (refl, refl, refl)
    | inr b ↦ elim (Bool-cases ("device.deleted" == t)) [
      | inl c ↦ rw (← (eq_iff "device.deleted" t).0 c) (refl, refl, refl)
      | inr c ↦ absurd (ground arith)
    ]
  ]
]
filled_of_known v h = absurd (cc)

validate_wanted : (v : Value) → is_wanted v ≡ (validate v && is_uuid_text (property "deviceId" v))
unfolding validate
validate_wanted v =
    ground (arith, filled_of_known (property "type" v), filled_of_uuid (property "deviceId" v))

valid_message :
    (v : Value)
    → validate v ≡ true
    → (is_filled (property "type" v) ≡ true)
      × (is_filled (property "deviceId" v) ≡ true)
      × (is_filled (property "name" v) ≡ true)
unfolding validate
valid_message v h = ground (arith, filled_of_known (property "type" v))

-- The event that a message is to be stored as, field by field.
abbrev pub message_event : Message → Value → Event
message_event m v = record {
  id = text m.id;
  type = property "type" v;
  device_id = property "deviceId" v;
  name = property "name" v;
  timestamp = property "timestamp" v;
  actor = null;
  description = null;
}

pub message_event_lem :
    (m : Message) (v : Value)
    → is_wanted v ≡ true
    → event_of m.id m.now (message_params v) ≡ message_event m v
message_event_lem m v h = ground arith

-- The event of a message, if it has one.
unfoldable pub event_of_message : (String → Option Value) → Message → Option Event
event_of_message json_parse m = elim m.value [
  | none ↦ none
  | some raw ↦ elim (json_parse raw) [
    | none ↦ none
    | some v ↦ if is_wanted v then some (message_event m v) else none
  ]
]

abbrev pub prepend : Option Event → List Event → List Event
prepend none es = es
prepend (some e) es = e ∷ es

abbrev pub events_of : (String → Option Value) → List Message → List Event
events_of json_parse [] = []
events_of json_parse (m ∷ ms) = prepend (event_of_message json_parse m) (events_of json_parse ms)

create_valid :
    (id now : String) (v : Value)
    → validate v ≡ true
    → create_event id now (message_params v) ≡ (
        if is_uuid_text (property "deviceId" v)
        then created (event_of id now (message_params v))
        else validation_error "deviceId must be a valid UUID v4"
            ("deviceId must be a valid UUID v4" ∷ []))
unfolding create_event
create_valid id now v h = ground (arith, valid_message v)

module _ {Store : Type 0} (r : EventRepository Store) (json_parse : String → Option Value) where
  abbrev pub after_event : Option Event → Store → Store
  after_event none s = s
  after_event (some e) s = (r.save e s).1

  -- Saving a list of events, one after the other.
  abbrev pub save_all : List Event → Store → Store
  save_all [] s = s
  save_all (e ∷ es) s = save_all es (r.save e s).1

  parsed_lem :
      (id now : String) (v : Value) (s : Store)
      → handle_parsed r json_parse id now (some v) s
        ≡ after_event (if is_wanted v then some (event_of id now (message_params v)) else none) s
  unfolding validate create_event
  parsed_lem id now undefined s = refl
  parsed_lem id now null s = refl
  parsed_lem id now v s = elim (Bool-cases (validate v)) [
    | inl ok ↦ ground (arith, validate_wanted v, create_valid id now v)
    | inr bad ↦ ground (arith, validate_wanted v)
  ]

  pub message_lem :
      (m : Message) (s : Store)
      → handle_message r json_parse m s ≡ after_event (event_of_message json_parse m) s
  unfolding handle_message event_of_message
  message_lem m s = elim (Option-cases m.value) [
    | inl absent ↦ ground arith
    | inr (raw, given) ↦ elim (Option-cases (json_parse raw)) [
      | inl bad ↦ ground arith
      | inr (v, parsed) ↦ ground (arith, parsed_lem m.id m.now v s, message_event_lem m v)
    ]
  ]

  -- Every message of a topic is worked through, whatever its content: the store after it is the
  -- one that is left when the events of the wanted messages, and no others, are saved in their
  -- order.
  pub consume_lem :
      (ms : List Message) (s : Store)
      → consume r json_parse ms s ≡ save_all (events_of json_parse ms) s
  unfolding consume
  consume_lem [] s = refl
  consume_lem (m ∷ ms) s = elim (Option-cases (event_of_message json_parse m)) [
    | inl skipped ↦ rw (message_lem m s, skipped) (consume_lem ms s)
    | inr (e, kept) ↦ rw (message_lem m s, kept) (consume_lem ms (r.save e s).1)
  ]

  pub message-IsComplete :
      (m : Message) (e : Event) → event_of_message json_parse m ≡ some e → IsComplete e
  unfolding event_of_message
  message-IsComplete m e h = elim (Option-cases m.value) [
    | inl absent ↦ absurd (ground arith)
    | inr (raw, given) ↦ elim (Option-cases (json_parse raw)) [
      | inl bad ↦ absurd (ground arith)
      | inr (v, parsed) ↦
          let wanted : is_wanted v ≡ true = ground arith in
          let same : event_of m.id m.now (message_params v) ≡ e =
            message_event_lem m v wanted ∙ ground arith in
          rw same at (event_of-IsComplete m.id m.now (message_params v))
    ]
  ]

  events_of-IsComplete : (ms : List Message) → All IsComplete (events_of json_parse ms)
  events_of-IsComplete [] = tt
  events_of-IsComplete (m ∷ ms) = elim (Option-cases (event_of_message json_parse m)) [
    | inl skipped ↦ rw skipped (events_of-IsComplete ms)
    | inr (e, kept) ↦ rw kept (message-IsComplete m e kept, events_of-IsComplete ms)
  ]

  save_all-Perm :
      (held : Store → List Event) (nb : Value → Value → Bool)
      → Promises r held nb equals
      → (es : List Event) (s : Store) → All IsComplete es
      → ((e : Event) (t : Store) → (r.save e t).0 ≡ true)
      → Perm (held (save_all es s)) (es ++ held s)
  save_all-Perm held nb h [] s whole ok = Perm.refl _
  save_all-Perm held nb h (e ∷ es) s (w, ws) ok =
      Perm.trans (save_all-Perm held nb h es (r.save e s).1 ws ok)
        (Perm.trans (Perm.append_left es (h.saved e s w (ok e s))) (perm_middle es (held s)))

module _ {Store : Type 0} (r : EventRepository Store) (json_parse : String → Option Value)
    (held : Store → List Event) (nb : Value → Value → Bool) (h : Promises r held nb equals) where
  -- While the repository resolves every `save`, all wanted messages of a topic reach the store,
  -- wherever unwanted, malformed or empty messages stand between them: it then holds the events of
  -- the wanted messages and what it held before, and nothing else.
  pub consume-Perm :
      (ms : List Message) (s : Store)
      → ((e : Event) (t : Store) → (r.save e t).0 ≡ true)
      → Perm (held (consume r json_parse ms s)) (events_of json_parse ms ++ held s)
  consume-Perm ms s ok = rw (consume_lem r json_parse ms s) (
      save_all-Perm r json_parse held nb h (events_of json_parse ms) s
        (events_of-IsComplete r json_parse ms) ok)

set_client-append :
    (x y : ClientState) (l t : List ClientState) → set_client (length l) x (l ++ y ∷ t) ≡ l ++ x ∷ t
set_client-append x y [] t = refl
set_client-append x y (c ∷ l) t = ap (λ u. c ∷ u) (set_client-append x y l t)

append_two :
    (l : List ClientState) (x y : ClientState) → (l ++ x ∷ []) ++ y ∷ [] ≡ l ++ (x ∷ y ∷ [])
append_two [] x y = refl
append_two (c ∷ l) x y = ap (λ u. c ∷ u) (append_two l x y)

-- Starting and stopping a consumer leaves a new client that is disconnected. Starting it twice
-- makes two clients, and stopping it then disconnects only the second: the first one stays as its
-- start left it, running if all its calls resolved.
stop-start :
    (a b : Attempt) (c : Consumer)
    → a.makes ≡ true
    → b.makes ≡ true
    → ((stop true (start a c)).clients ≡ c.clients ++ disconnected ∷ [])
      × ((stop true (start b (start a c))).clients ≡ c.clients ++ (reached a ∷ disconnected ∷ []))
unfolding start stop
stop-start a b c ha hb = (
  rw (ha) (set_client-append disconnected (reached a) c.clients []),
  rw (ha, hb)
      (set_client-append disconnected (reached b) (c.clients ++ reached a ∷ []) []
        ∙ append_two c.clients (reached a) disconnected),
)
