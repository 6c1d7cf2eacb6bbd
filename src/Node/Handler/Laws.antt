-- ===== src/Node/Handler/Laws.antt =====
-- What a POST and a GET of /events come to, and that what was posted is listed.
use asset_tracker.Prelude.{
  ◌≡◌, refl, ◌⊎◌, inl, inr, true, false, Option, none, some, String, arith, Bool-cases,
  Option-cases,
}
use asset_tracker.Node.Value.{Value, undefined, null}
use asset_tracker.Node.Event.{Params, event_of, join}
use asset_tracker.Node.Event.Laws.{IsValid, accepted, refused, create_event-Judged}
use asset_tracker.Node.Repository.{EventRepository}
use asset_tracker.Node.UseCases.{params_of, log_event}
use asset_tracker.Node.Reply.{Response, error, event}
use asset_tracker.Node.Handler.{Incoming, parse_body, handle_post}

module _ {Store : Type 0} (r : EventRepository Store) (json_parse : String → Option Value)
    (id now : String) where
  -- How a POST ends: the reply and the store after it.
  pub data Posted (i : Incoming) (s : Store) (out : Response × Store) : Type 0 where
    malformed :
        parse_body json_parse i ≡ none
        → out ≡ (record { status = 400; body = error "invalid JSON body" }, s)
        → Posted i s out
    without_fields :
        (v : Value)
        → parse_body json_parse i ≡ some v
        → (v ≡ undefined) ⊎ (v ≡ null)
        → out ≡ (record { status = 500; body = error "internal server error" }, s)
        → Posted i s out
    not_valid :
        (v : Value) (p : Params) (m : String)
        → parse_body json_parse i ≡ some v
        → params_of v ≡ some p
        → ¬ IsValid p
        → out ≡ (record { status = 400; body = error m }, s)
        → Posted i s out
    stored :
        (v : Value) (p : Params)
        → parse_body json_parse i ≡ some v
        → params_of v ≡ some p
        → IsValid p
        → (r.save (event_of id now p) s).0 ≡ true
        → out ≡ (
          record { status = 201; body = event (event_of id now p) },
          (r.save (event_of id now p) s).1,
        )
        → Posted i s out
    not_stored :
        (v : Value) (p : Params)
        → parse_body json_parse i ≡ some v
        → params_of v ≡ some p
        → IsValid p
        → (r.save (event_of id now p) s).0 ≡ false
        → out ≡ (
          record { status = 500; body = error "internal server error" },
          (r.save (event_of id now p) s).1,
        )
        → Posted i s out

  params_of-none : (v : Value) → params_of v ≡ none → (v ≡ undefined) ⊎ (v ≡ null)
  unfolding params_of
  params_of-none undefined h = inl refl
  params_of-none null h = inr refl
  params_of-none v h = absurd (cc)

  -- A POST of /events ends in one of five ways: a body that cannot be parsed is refused with 400,
  -- and null, though it is JSON, with 500; parameters that are not valid are refused with 400, in
  -- all three cases with the store unchanged; for valid ones the event is saved, and the reply is
  -- 201 with that event if the repository resolved, and 500 if it rejected.
  pub handle_post-Posted :
      (i : Incoming) (s : Store) → Posted i s (handle_post r json_parse id now i s)
  unfolding handle_post log_event
  handle_post-Posted i s = elim (Option-cases (parse_body json_parse i)) [
    | inl e ↦ malformed e (ground arith)
    | inr (v, e) ↦ elim (Option-cases (params_of v)) [
      | inl n ↦ without_fields v e (params_of-none v n) (ground arith)
      | inr (p, f) ↦ elim (create_event-Judged id now p) [
        | refused bad errors c len ↦ not_valid v p (join errors) e f bad (ground arith)
        | accepted good _ c ↦ elim (Bool-cases (r.save (event_of id now p) s).0) [
          | inl done ↦ stored v p e f good done (ground arith)
          | inr not_done ↦ not_stored v p e f good not_done (ground arith)
        ]
      ]
    ]
  ]
