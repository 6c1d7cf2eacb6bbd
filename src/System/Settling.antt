-- ===== src/System/Settling.antt =====
-- Every way in which creating an event in the interface ends: `createEvent` of
-- web-ui/src/lib/api/events.ts through the proxy, with the Node service behind it.
use asset_tracker.Prelude.{
  ◌≡◌, refl, ◌∙◌, ap, inl, inr, true, false, Option, none, some, [], ◌∷◌, String, arith,
}
use asset_tracker.Api.Http.{Fetch, Settled, resolved, rejected, api_error}
use asset_tracker.Api.Events
use asset_tracker.Api.Events.{CreateEventInput, event_json}
use asset_tracker.Node.Value.{Value, null, text, object}
use asset_tracker.Node.Event.{Event, event_of}
use asset_tracker.Node.Repository.{EventRepository}
use asset_tracker.Node.Reply.{Body, event, error}
use asset_tracker.Node.Handler.{ended}
use asset_tracker.Node.Handler.Laws.{
  malformed, without_fields, not_valid, stored, not_stored, handle_post-Posted,
}
use asset_tracker.Node.Server.{Moment, Server}
use asset_tracker.Node.Gateway.{
  fields_of, params, IsAcceptable, IsValid-IsAcceptable, IsAcceptable-IsValid, parsed, same_params,
  created_lem, rejected_lem,
}
use asset_tracker.System.Wire.{Wire, fetch_at, store_after}
use asset_tracker.System.Creating.{creates, settled-creates, store_after-creates}

-- What an optional field of the form is stored as.
abbrev pub or_absent : Option String → Value
or_absent none = null
or_absent (some s) = text s

-- The event that the service is to make of the form's input, field by field.
pub record IsMade (id now : String) (input : CreateEventInput) (x : Event) : Type 0 where
  pub has_id : x.id ≡ text id
  pub has_type : x.type ≡ text input.type
  pub has_device_id : x.device_id ≡ text input.device_id
  pub has_name : x.name ≡ text input.name
  pub has_timestamp : x.timestamp ≡ text now
  pub has_actor : x.actor ≡ or_absent input.actor
  pub has_description : x.description ≡ or_absent input.description

event_of-IsMade :
    (id now : String) (input : CreateEventInput)
    → IsMade id now input (event_of id now (params input))
event_of-IsMade id now input = record {
  has_id = refl;
  has_type = refl;
  has_device_id = refl;
  has_name = refl;
  has_timestamp = refl;
  has_actor = ground arith;
  has_description = ground arith;
}

-- How a creation settles, with the store before and after it.
pub data Settles {Store : Type 0} (r : EventRepository Store) (id now : String)
    (input : CreateEventInput) (s s' : Store) (st : Settled (Option Body) Body) : Type 0 where
  accepted :
      (x : Event)
      → IsAcceptable input
      → IsMade id now input x
      → (r.save x s).0 ≡ true
      → st ≡ resolved (some (event x))
      → s' ≡ (r.save x s).1
      → Settles r id now input s s' st
  refused :
      (m : String)
      → ¬ IsAcceptable input
      → st ≡ rejected (api_error 400 (error m))
      → s' ≡ s
      → Settles r id now input s s' st
  unavailable :
      (x : Event)
      → IsAcceptable input
      → IsMade id now input x
      → (r.save x s).0 ≡ false
      → st ≡ rejected (api_error 500 (error "internal server error"))
      → s' ≡ (r.save x s).1
      → Settles r id now input s s' st

module _ (w : Wire) {Store : Type 0} (r : EventRepository Store) (others : Fetch Body) (e : Moment)
    (v : Server Store) where
  -- Creating an event in the interface, through the proxy and the service. If type and name have
  -- more than white space and the device's id is a UUID, the service saves the event with a new id,
  -- the time, and the form's type, device, name, actor and description, null for one of the last two
  -- that was left out; the call resolves with that event, or rejects with 500 if the repository does.
  -- Otherwise the call rejects with 400 and a message, and the store is as it was.
  pub create_event-Settles :
      (input : CreateEventInput) (token : String)
      → Settles r e.id e.now input v.store
          (store_after w r others e v (creates input token))
          (Events.create_event (fetch_at w r others e v) input token).settled
  create_event-Settles input token =
      let body = ended (w.stringify (event_json input) ∷ []) in
      let id = e.id in
      let now = e.now in
      let s = v.store in
      let made = event_of id now (params input) in
      let read = parsed r w.json_parse w.stringify w.reads_back id now s input in
      let same = same_params r w.json_parse w.stringify w.reads_back id now s input in
      let settled = settled-creates w r others e v input token in
      let after = store_after-creates w r others e v input token in
      let fails = rejected_lem r w.json_parse w.stringify w.reads_back id now s input token in
      elim (handle_post-Posted r w.json_parse id now body s) [
        | malformed b out ↦ absurd (cc)
        | without_fields u b n out ↦
            let here : object (fields_of (event_json input)) ≡ u = cc in
            absurd (elim n [ inl k ↦ cc | inr k ↦ cc ])
        | not_valid u p m b f bad out ↦
            refused m (λ good. bad (rw (same u p b f) at (IsAcceptable-IsValid input good)))
              (settled ∙ fails 400 (error m) (ap (λ x. x.0) out) (omega arith))
              (after ∙ ap (λ x. x.1) out)
        | stored u p b f good done out ↦
            let p' = same u p b f in
            accepted made (IsValid-IsAcceptable input (rw (← p') at good))
              (event_of-IsMade id now input) (rw (← p') at done)
              (settled
                ∙ created_lem r w.json_parse w.stringify w.reads_back id now s input token
                    (event made) (rw (← p') at (ap (λ x. x.0) out)))
              (after ∙ rw (← p') at (ap (λ x. x.1) out))
        | not_stored u p b f good failed out ↦
            let p' = same u p b f in
            unavailable made (IsValid-IsAcceptable input (rw (← p') at good))
              (event_of-IsMade id now input) (rw (← p') at failed)
              (settled
                ∙ fails 500 (error "internal server error") (ap (λ x. x.0) out) (omega arith))
              (after ∙ rw (← p') at (ap (λ x. x.1) out))
      ]
