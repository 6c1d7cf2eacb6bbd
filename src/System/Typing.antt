-- ===== src/System/Typing.antt =====
-- The types of what the service sends: a body is cast by the interface, not tested.
use mathlib.Core.List.{Perm, Mem, mem-cons, mem-cons_self, mem-cons_of_mem, not-mem-nil}
use mathlib.Core.Bool.{Bool-set}
use mathlib.Core.List.Perm
use mathlib.Core.Logic.Or
use asset_tracker.Prelude.{
  ◌≡◌, ap, sym, ◌∙◌, subst, inl, inr, Bool, true, Option, some, List, [], ◌∷◌, String, arith,
  filter, All, Option-cases, Bool-cases,
}
use asset_tracker.Api.Http.{Fetch, resolved}
use asset_tracker.Api.Events
use asset_tracker.Api.Events.{CreateEventInput, event_json}
use asset_tracker.Forms.Replies.{fits_schema, event_schema}
use asset_tracker.Node.Value.{Value, object, end, field, is_filled}
use asset_tracker.Node.Event.{Event, event_of}
use asset_tracker.Node.Event.Laws.{event_of-IsComplete}
use asset_tracker.Node.Repository.{EventRepository, Promises, IsComplete, equals}
use asset_tracker.Node.Reply.{Body, events}
use asset_tracker.Node.Handler.{ended, handle_post}
use asset_tracker.Node.Handler.Laws.{
  malformed, without_fields, not_valid, stored, not_stored, handle_post-Posted,
}
use asset_tracker.Node.Consumer.{Message, handle_message, message_params}
use asset_tracker.Node.Consumer.Laws.{
  is_wanted, message_event_lem, event_of_message, message_lem, message-IsComplete,
}
use asset_tracker.Node.Server.{Moment, Server}
use asset_tracker.Node.Gateway.{params, same_params}
use asset_tracker.System.Wire.{Wire, fetch_at}
use asset_tracker.System.Listing.{lists, rejects, fails, get_events-Fetched}

-- The object that `JSON.stringify` writes for an event.
abbrev pub event_value : Event → Value
event_value e = object (
    field "id" e.id (
      field "type" e.type (
        field "deviceId" e.device_id (
          field "name" e.name (
            field "timestamp" e.timestamp
              (field "actor" e.actor (field "description" e.description end)))))))

abbrev pub is_event : Event → Bool
is_event e = fits_schema event_schema (event_value e)

-- Every event of a list fits the schema.
abbrev pub AllFit : List Event → Type 0
AllFit es = (e : Event) → Mem e es → is_event e ≡ true

AllFit-Perm : (xs ys : List Event) → Perm xs ys → AllFit ys → AllFit xs
AllFit-Perm xs ys p fit e m = fit e ((Perm.mem_iff p).0 m)

AllFit-cons : (e : Event) (es : List Event) → is_event e ≡ true → AllFit es → AllFit (e ∷ es)
AllFit-cons e es h fit x m = Or.elim (Bool-set _ _) (mem-cons.0 m) (λ same. rw same h) (fit x)

AllFit-filter : (keep : Event → Bool) (es : List Event) → AllFit es → AllFit (filter keep es)
AllFit-filter keep [] fit = fit
AllFit-filter keep (x ∷ xs) fit =
    let rest = AllFit-filter keep xs (λ e m. fit e (mem-cons_of_mem x m)) in
    elim (Bool-cases (keep x)) [
      | inl kept ↦ rw kept (AllFit-cons x (filter keep xs) (fit x mem-cons_self) rest)
      | inr left ↦ rw left rest
    ]

all_fit : (es : List Event) → AllFit es → All (λ x. is_event x ≡ true) es
all_fit [] fit = tt
all_fit (x ∷ xs) fit = (fit x mem-cons_self, all_fit xs (λ e m. fit e (mem-cons_of_mem x m)))

-- What the form sends makes an event that fits.
is_event-params :
    (id now : String) (input : CreateEventInput) → is_event (event_of id now (params input)) ≡ true
is_event-params id now input = ground arith

is_event-wanted :
    (id now : String) (v : Value)
    → is_wanted v ≡ true
    → is_event (event_of id now (message_params v)) ≡ true
unfolding is_filled
is_event-wanted id now v h = ground arith

is_event-message :
    (json_parse : String → Option Value) (m : Message) (e : Event)
    → event_of_message json_parse m ≡ some e
    → is_event e ≡ true
unfolding event_of_message
is_event-message json_parse m e h = elim (Option-cases m.value) [
  | inl absent ↦ absurd (ground arith)
  | inr (raw, given) ↦ elim (Option-cases (json_parse raw)) [
    | inl bad ↦ absurd (ground arith)
    | inr (v, parsed) ↦ elim (Bool-cases (is_wanted v)) [
      | inr unwanted ↦ absurd (ground arith)
      | inl wanted ↦
          let same : event_of m.id m.now (message_params v) ≡ e =
            message_event_lem m v wanted ∙ ground arith in
          subst (λ x. is_event x ≡ true) same (is_event-wanted m.id m.now v wanted)
    ]
  ]
]

module _ {Store : Type 0} (r : EventRepository Store) (w : Wire) (held : Store → List Event)
    (nb : Value → Value → Bool) (h : Promises r held nb equals) where
  -- Saving an event that fits, however it ends.
  AllFit-save :
      (e : Event) (s : Store)
      → IsComplete e
      → is_event e ≡ true
      → AllFit (held s)
      → AllFit (held (r.save e s).1)
  AllFit-save e s whole fits all = elim (Bool-cases (r.save e s).0) [
    | inl saved ↦ AllFit-Perm _ _ (h.saved e s whole saved) (AllFit-cons e (held s) fits all)
    | inr failed ↦ elim (h.not_saved e s whole failed) [
      | inl kept ↦ AllFit-Perm _ _ kept all
      | inr added ↦ AllFit-Perm _ _ added (AllFit-cons e (held s) fits all)
    ]
  ]

  -- The store after any run of the service that gets its events from the form and from Kafka.
  pub data Reachable : Store → Type 0 where
    empty : (s : Store) → held s ≡ [] → Reachable s
    creates :
        (s : Store) (id now : String) (input : CreateEventInput)
        → Reachable s
        → Reachable
            (handle_post r w.json_parse id now (ended (w.stringify (event_json input) ∷ [])) s).1
    consumes :
        (s : Store) (m : Message) → Reachable s → Reachable (handle_message r w.json_parse m s)

  AllFit-posted :
      (id now : String) (input : CreateEventInput) (s : Store)
      → AllFit (held s)
      → AllFit (
          held
            (handle_post r w.json_parse id now (ended (w.stringify (event_json input) ∷ [])) s).1)
  AllFit-posted id now input s all =
      let same = same_params r w.json_parse w.stringify w.reads_back id now s input in
      let kept : (t : Store) → t ≡ s → AllFit (held t) =
        λ t k. subst (λ x. AllFit (held x)) (sym k) all in
      let made =
        AllFit-save (event_of id now (params input)) s (event_of-IsComplete id now (params input))
          (is_event-params id now input) all in
      elim (handle_post-Posted r w.json_parse id now (ended (w.stringify (event_json input) ∷ []))
        s) [
          | malformed e out ↦ kept _ (ap (λ x. x.1) out)
          | without_fields v e n out ↦ kept _ (ap (λ x. x.1) out)
          | not_valid v p m e f bad out ↦ kept _ (ap (λ x. x.1) out)
          | stored v p e f good done out ↦
              subst (λ x. AllFit (held x)) (sym (ap (λ x. x.1) out))
                (subst (λ q. AllFit (held (r.save (event_of id now q) s).1)) (same v p e f) made)
          | not_stored v p e f good failed out ↦
              subst (λ x. AllFit (held x)) (sym (ap (λ x. x.1) out))
                (subst (λ q. AllFit (held (r.save (event_of id now q) s).1)) (same v p e f) made)
        ]

  AllFit-consumed :
      (m : Message) (s : Store)
      → AllFit (held s)
      → AllFit (held (handle_message r w.json_parse m s))
  AllFit-consumed m s all = elim (Option-cases (event_of_message w.json_parse m)) [
    | inl skipped ↦ rw (message_lem r w.json_parse m s, skipped) all
    | inr (e, kept) ↦
        rw (message_lem r w.json_parse m s, kept)
          (AllFit-save e s (message-IsComplete r w.json_parse m e kept)
            (is_event-message w.json_parse m e kept) all)
  ]

  Reachable-AllFit : {s : Store} → Reachable s → AllFit (held s)
  Reachable-AllFit (empty s none_held) =
      subst AllFit (sym none_held) (λ e m. absurd (not-mem-nil m))
  Reachable-AllFit (creates s id now input before) =
      AllFit-posted id now input s (Reachable-AllFit before)
  Reachable-AllFit (consumes s m before) = AllFit-consumed m s (Reachable-AllFit before)

  -- While events come only from the form and from Kafka, the cast that the interface makes is right:
  -- whenever a call for a device's events resolves with a list, each event in it fits `eventSchema`.
  pub get_events-AllFit :
      (others : Fetch Body) (e : Moment) (v : Server Store) (d token : String) (es : List Event)
      → Reachable v.store
      → (Events.get_events (fetch_at w r others e v) w.encode d token).settled
        ≡ resolved (some (events es))
      → All (λ x. is_event x ≡ true) es
  get_events-AllFit others e v d token es reached k =
      elim (get_events-Fetched w r held nb h others e v d token) [
        | lists found _ same p _ ↦
            let here : found ≡ es = cc in
            let fit = AllFit-Perm _ _ p (
              AllFit-filter (λ x. equals d x.device_id) (held v.store)
                (Reachable-AllFit reached)) in
            subst (All (λ x. is_event x ≡ true)) here (all_fit found fit)
        | rejects m _ same ↦ absurd (cc)
        | fails _ same ↦ absurd (cc)
      ]
