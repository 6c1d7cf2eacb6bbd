-- ===== src/Node/Handler/Listing.antt =====
-- What a POST of /events created is listed by a GET, by its device and by its type.
use mathlib.Core.Logic.Or
use mathlib.Core.List.{Mem, Mem-prop, mem-cons, mem-cons_self, mem-cons_of_mem}
use mathlib.Core.List.Perm
use asset_tracker.Prelude.{
  ◌≡◌, refl, inl, inr, true, Option, none, some, List, [], ◌∷◌, String, Bool, ap, sym, ◌∙◌, arith,
  truthy, Bool-cases, Option-cases, filter, eq_refl,
}
use asset_tracker.Node.Value.{Value, text, is_filled}
use asset_tracker.Node.Uuid.{is_uuid, is_filled-is_uuid}
use asset_tracker.Node.Event.{Params, Event, event_of}
use asset_tracker.Node.Event.Laws.{IsValid, event_of-IsComplete}
use asset_tracker.Node.Repository.{EventRepository, Promises, equals}
use asset_tracker.Node.UseCases.{list_by_device, list_by_type}
use asset_tracker.Node.Reply.{Response, error, event, events}
use asset_tracker.Node.Handler.{Incoming, handle_post, handle_get}
use asset_tracker.Node.Handler.Laws.{
  Posted, malformed, without_fields, not_valid, stored, not_stored, handle_post-Posted,
}

pub mem-filter_true :
    (p : Event → Bool) (e : Event) (es : List Event) → p e ≡ true → Mem e es → Mem e (filter p es)
mem-filter_true p e [] h m = m
mem-filter_true p e (x ∷ xs) h m = elim (Bool-cases (p x)) [
  | inl kept ↦ rw kept (
      Or.elim Mem-prop (mem-cons.0 m) (λ same. rw same mem-cons_self)
        (λ rest. mem-cons_of_mem x (mem-filter_true p e xs h rest)))
  | inr left ↦ rw left (
      Or.elim Mem-prop (mem-cons.0 m) (λ same. absurd (cc)) (λ rest. mem-filter_true p e xs h rest))
]

pub truthy_of_filled : (s : String) → is_filled (text s) ≡ true → truthy s ≡ true
unfolding is_filled
truthy_of_filled s h = ground arith

-- A reply that lists the event, or says that the repository failed.
pub data Lists (e : Event) (reply : Response) : Type 0 where
  listed :
      (es : List Event)
      → reply ≡ record { status = 200; body = events es }
      → Mem e es
      → Lists e reply
  unavailable :
      reply ≡ record { status = 500; body = error "internal server error" } → Lists e reply

module _ {Store : Type 0} (r : EventRepository Store) (json_parse : String → Option Value)
    (id now : String) where
  stored_of_created :
      (i : Incoming) (s s' : Store) (e : Event) (out : Response × Store)
      → Posted r json_parse id now i s out
      → out ≡ (record { status = 201; body = event e }, s')
      → (p : Params) × IsValid p
        × (e ≡ event_of id now p)
        × ((r.save e s).0 ≡ true)
        × (s' ≡ (r.save e s).1)
  stored_of_created i s s' e out (malformed _ o) h = absurd (ground arith)
  stored_of_created i s s' e out (without_fields _ _ _ o) h = absurd (ground arith)
  stored_of_created i s s' e out (not_valid _ _ _ _ _ _ o) h = absurd (ground arith)
  stored_of_created i s s' e out (not_stored _ _ _ _ _ _ o) h = absurd (ground arith)
  stored_of_created i s s' e out (stored v p _ _ good done o) h =
      let same : event_of id now p ≡ e = cc in (p, good, sym same, rw (← same) done, cc)

  module _ (held : Store → List Event) (nb : Value → Value → Bool)
      (h : Promises r held nb equals) where
    lists_device :
        (s : Store) (e : Event) (d : String)
        → is_uuid d ≡ true
        → e.device_id ≡ text d
        → Mem e (held s)
        → Lists e (handle_get r (some d) none s)
    unfolding handle_get list_by_device
    lists_device s e d uuid same m =
        let full = is_filled-is_uuid d uuid in
        let there = truthy_of_filled d full in
        elim (Option-cases (r.find_by_device_id d s)) [
          | inl failed ↦ unavailable (rw (there, full, uuid, failed) refl)
          | inr (es, found) ↦
              let p = (h.of_device d s es found).0 in
              listed es (rw (there, full, uuid, found) refl) (
                (Perm.mem_iff p).1 (
                  mem-filter_true (λ e'. equals d e'.device_id) e (held s)
                    (rw (same, eq_refl d) refl) m))
        ]

    lists_type :
        (s : Store) (e : Event) (other : Option String) (t : String)
        → is_filled (text t) ≡ true
        → e.type ≡ text t
        → Mem e (held s)
        → Lists e (handle_get r other (some t) s)
    unfolding handle_get list_by_type
    lists_type s e other t full same m =
        let there = truthy_of_filled t full in
        elim (Option-cases (r.find_by_type t s)) [
          | inl failed ↦ unavailable (ground arith)
          | inr (es, found) ↦
              let p = (h.of_type t s es found).0 in
              listed es (ground arith) (
                (Perm.mem_iff p).1 (
                  mem-filter_true (λ e'. equals t e'.type) e (held s) (rw (same, eq_refl t) refl)
                    m))
        ]

    -- Whatever a POST answers with 201 is listed at once: a GET for its device, and a GET for its
    -- type with or without a device, answer 200 with a list that has the event in it, unless the
    -- repository fails.
    pub handle_get-handle_post :
        (i : Incoming) (s s' : Store) (e : Event) (other : Option String)
        → handle_post r json_parse id now i s ≡ (record { status = 201; body = event e }, s')
        → (d : String) × (t : String) × (e.device_id ≡ text d)
          × (e.type ≡ text t)
          × Lists e (handle_get r (some d) none s')
          × Lists e (handle_get r other (some t) s')
    handle_get-handle_post i s s' e other posted =
        let (p, good, same, done, after) =
          stored_of_created i s s' e _ (handle_post-Posted r json_parse id now i s) posted in
        let whole = rw (← same) at (event_of-IsComplete id now p) in
        let m = rw (← after) at ((Perm.mem_iff (h.saved e s whole done)).1 mem-cons_self) in
        let at_device = ap (λ (x : Event). x.device_id) same ∙ good.device_id_text in
        let at_type = ap (λ (x : Event). x.type) same ∙ good.type_text in
        (
          good.device_id,
          good.type,
          at_device,
          at_type,
          lists_device s' e good.device_id good.device_id_uuid at_device m,
          lists_type s' e other good.type good.type_filled at_type m,
        )
