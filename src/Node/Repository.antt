-- ===== src/Node/Repository.antt =====
-- The port node-service/src/domain/event-repository.js, and its adapter for MongoDB,
-- node-service/src/infrastructure/mongo-event-repository.js. The collection of the driver is a
-- parameter.
pub mod Refines
pub mod Memory
use asset_tracker.Prelude.{
  ◌≡◌, ◌⊎◌, Bool, true, false, ◌||◌, Option, none, some, List, [], ◌∷◌, String, ◌==◌, filter, map,
  if◌then◌else◌,
}
use mathlib.Core.List.{Perm}
use asset_tracker.Node.Value.{
  Value, Items, nil, cons, text, array, or_null, Fields, end, field, lookup_field,
}
use asset_tracker.Node.Event.{Event}

-- The operations of the port over a store of some kind. `save` says whether it resolved; a query
-- that is rejected is `none`.
pub record EventRepository (Store : Type 0) : Type 0 where
  pub save : Event → Store → Bool × Store
  pub find_by_device_id : String → Store → Option (List Event)
  pub find_by_type : String → Store → Option (List Event)

abbrev pub is_text : String → Value → Bool
is_text s (text t) = t == s
is_text s _ = false

-- Each event has a timestamp that is not before the next one's.
abbrev pub IsDescending : (Value → Value → Bool) → List Event → Type 0
IsDescending not_before [] = Unit
IsDescending not_before (e ∷ []) = Unit
IsDescending not_before (e ∷ (f ∷ es)) =
    (not_before e.timestamp f.timestamp ≡ true) × IsDescending not_before (f ∷ es)

-- Nothing in the event stands for a missing field.
pub record IsComplete (e : Event) : Type 0 where
  pub actor_known : or_null e.actor ≡ e.actor
  pub description_known : or_null e.description ≡ e.description

-- What the port promises, with the events that a store holds in no order that matters. A rejected
-- `save` may have stored the event all the same.
pub record Promises {Store : Type 0} (r : EventRepository Store) (held : Store → List Event)
    (not_before : Value → Value → Bool) (matches : String → Value → Bool) : Type 0 where
  pub saved :
      (e : Event) (s : Store)
      → IsComplete e
      → (r.save e s).0 ≡ true
      → Perm (held (r.save e s).1) (e ∷ held s)
  pub not_saved :
      (e : Event) (s : Store)
      → IsComplete e
      → (r.save e s).0 ≡ false
      → Perm (held (r.save e s).1) (held s) ⊎ Perm (held (r.save e s).1) (e ∷ held s)
  pub of_device :
      (d : String) (s : Store) (es : List Event)
      → r.find_by_device_id d s ≡ some es
      → Perm es (filter (λ e. matches d e.device_id) (held s)) × IsDescending not_before es
  pub of_type :
      (t : String) (s : Store) (es : List Event)
      → r.find_by_type t s ≡ some es
      → Perm es (filter (λ e. matches t e.type) (held s)) × IsDescending not_before es

abbrev has_item : String → Items → Bool
has_item s nil = false
has_item s (cons v vs) = is_text s v || has_item s vs

-- The filter `{ key: s }` finds a field that is that text, or an array with it.
abbrev pub equals : String → Value → Bool
equals s (array vs) = has_item s vs
equals s v = is_text s v

-- A document, by the values of its fields; a field that it lacks is undefined.
abbrev pub value_of : (key : String) → Fields → Value
value_of key doc = lookup_field key doc

pub data Direction : Type 0 where
  ascending descending : Direction

-- The argument of `sort`: a key with 1 or -1; `unsorted` where it is not called.
pub data Sort : Type 0 where
  unsorted : Sort
  by : (key : String) → Direction → Sort

-- Whether one document may stand before another.
abbrev pub may_precede : (Value → Value → Bool) → Sort → Fields → Fields → Bool
may_precede not_before unsorted d e = true
may_precede not_before (by key ascending) d e = not_before (value_of key e) (value_of key d)
may_precede not_before (by key descending) d e = not_before (value_of key d) (value_of key e)

abbrev pub IsOrdered : (Fields → Fields → Bool) → List Fields → Type 0
IsOrdered before [] = Unit
IsOrdered before (d ∷ []) = Unit
IsOrdered before (d ∷ (e ∷ ds)) = (before d e ≡ true) × IsOrdered before (e ∷ ds)

-- A collection of the driver, as documented: `insertOne` adds the document; `find` with a filter
-- `{ key: text }` gives the documents that it matches, in the order that `sort` asks for. A rejected
-- `insertOne` may have added the document all the same. `not_before` is MongoDB's order of values.
pub record Collection (Store : Type 0) : Type 0 where
  pub insert_one : Fields → Store → Bool × Store
  pub find : (key text : String) → Sort → Store → Option (List Fields)
  pub documents : Store → List Fields
  pub not_before : Value → Value → Bool
  pub inserted :
      (d : Fields) (s : Store)
      → (insert_one d s).0 ≡ true
      → Perm (documents (insert_one d s).1) (d ∷ documents s)
  pub not_inserted :
      (d : Fields) (s : Store)
      → (insert_one d s).0 ≡ false
      → Perm (documents (insert_one d s).1) (documents s)
        ⊎ Perm (documents (insert_one d s).1) (d ∷ documents s)
  pub found :
      (key t : String) (o : Sort) (s : Store) (ds : List Fields)
      → find key t o s ≡ some ds
      → Perm ds (filter (λ d. equals t (value_of key d)) (documents s))
        × IsOrdered (may_precede not_before o) ds

-- `{ ...event }`
abbrev pub to_document : Event → Fields
to_document e = field "id" e.id (
    field "type" e.type (
      field "deviceId" e.device_id (
        field "name" e.name (
          field "timestamp" e.timestamp
            (field "actor" e.actor (field "description" e.description end))))))

-- The projection of a document in both queries.
abbrev pub from_document : Fields → Event
from_document doc = record {
  id = value_of "id" doc;
  type = value_of "type" doc;
  device_id = value_of "deviceId" doc;
  name = value_of "name" doc;
  timestamp = value_of "timestamp" doc;
  actor = or_null (value_of "actor" doc);
  description = or_null (value_of "description" doc);
}

abbrev pub from_documents : Option (List Fields) → Option (List Event)
from_documents none = none
from_documents (some docs) = some (map from_document docs)

-- The class `MongoEventRepository`.
unfoldable pub mongo_event_repository : {Store : Type 0} → Collection Store → EventRepository Store
mongo_event_repository c = record {
  save = λ e s. c.insert_one (to_document e) s;
  find_by_device_id = λ d s. from_documents (c.find "deviceId" d (by "timestamp" descending) s);
  find_by_type = λ t s. from_documents (c.find "type" t (by "timestamp" descending) s);
}

-- The events that a collection stands for.
abbrev pub held_by : {Store : Type 0} → Collection Store → Store → List Event
held_by c s = map from_document (c.documents s)
