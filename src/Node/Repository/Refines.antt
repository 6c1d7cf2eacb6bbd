-- ===== src/Node/Repository/Refines.antt =====
-- The adapter for MongoDB keeps the promises of the port.
use mathlib.Core.List.Perm
use mathlib.Core.List.{Perm}
use asset_tracker.Prelude.{
  ◌≡◌, refl, inl, inr, Bool, some, List, [], ◌∷◌, String, filter, map, arith, subst, Option-cases,
}
use asset_tracker.Node.Value.{Value, Fields}
use asset_tracker.Node.Event.{Event}
use asset_tracker.Node.Repository.{
  IsDescending, IsComplete, Promises, equals, Collection, value_of, by, descending, may_precede,
  IsOrdered, to_document, from_document, from_documents, mongo_event_repository, held_by,
}

from_document-to_document : (e : Event) → IsComplete e → from_document (to_document e) ≡ e
from_document-to_document e h = rw (h.actor_known, h.description_known) refl

filter-map :
    (p : Event → Bool) (q : Fields → Bool) (ds : List Fields)
    → ((d : Fields) → p (from_document d) ≡ q d)
    → filter p (map from_document ds) ≡ map from_document (filter q ds)
filter-map p q [] h = refl
filter-map p q (d ∷ ds) h = ground (arith, h d, filter-map p q ds h)

map-IsDescending :
    (f : Value → Value → Bool) (ds : List Fields)
    → IsOrdered (may_precede f (by "timestamp" descending)) ds
    → IsDescending f (map from_document ds)
map-IsDescending f [] h = tt
map-IsDescending f (d ∷ []) h = tt
map-IsDescending f (d ∷ (e ∷ ds)) (h, k) = (h, map-IsDescending f (e ∷ ds) k)

module _ {Store : Type 0} (c : Collection Store) where
  held_after :
      (e : Event) (s : Store) (ds : List Fields)
      → IsComplete e
      → Perm ds (to_document e ∷ c.documents s)
      → Perm (map from_document ds) (e ∷ held_by c s)
  held_after e s ds h p = rw (from_document-to_document e h) at (Perm.map from_document p)

  query :
      (key t : String) (p : Event → Bool) (s : Store) (es : List Event)
      → ((d : Fields) → p (from_document d) ≡ equals t (value_of key d))
      → from_documents (c.find key t (by "timestamp" descending) s) ≡ some es
      → Perm es (filter p (held_by c s)) × IsDescending c.not_before es
  query key t p s es same e = elim (Option-cases (c.find key t (by "timestamp" descending) s)) [
    | inl nothing ↦ absurd (cc)
    | inr (ds, some_docs) ↦
        let (q, d) = c.found key t (by "timestamp" descending) s ds some_docs in
        let here : map from_document ds ≡ es = cc in
        let r =
          rw (← filter-map p (λ x. equals t (value_of key x)) (c.documents s) same) at
            (Perm.map from_document q) in
        subst (λ l. Perm l (filter p (held_by c s)) × IsDescending c.not_before l) here
          (r, map-IsDescending c.not_before ds d)
  ]

  -- The adapter keeps the promises of the port, over any collection that behaves as documented: a
  -- resolved `save` adds the event and nothing else, a rejected one adds at most the event; each
  -- query that resolves gives exactly the events that match, by descending timestamps.
  pub mongo_event_repository-Promises :
      Promises (mongo_event_repository c) (held_by c) c.not_before equals
  unfolding mongo_event_repository
  mongo_event_repository-Promises = record {
    saved = λ e s h ok. held_after e s _ h (c.inserted (to_document e) s ok);
    not_saved = λ e s h failed. elim (c.not_inserted (to_document e) s failed) [
      | inl p ↦ inl (Perm.map from_document p)
      | inr p ↦ inr (held_after e s _ h p)
    ];
    of_device = λ d s es e. query "deviceId" d (λ x. equals d x.device_id) s es (λ x. refl) e;
    of_type = λ t s es e. query "type" t (λ x. equals t x.type) s es (λ x. refl) e;
  }
