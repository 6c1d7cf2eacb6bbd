-- ===== src/Node/Event/Laws.antt =====
-- Which parameters make an event.
use asset_tracker.Prelude.{
  ℕ, ◌+◌, ◌≡◌, ◌⊎◌, inl, inr, Bool-cases, refl, Bool, true, false, List, [], ◌∷◌, String, length,
  arith, ap, sym, ◌∙◌, if◌then◌else◌, ◌&&◌,
}
use asset_tracker.Node.Value.{
  Value, undefined, null, boolean, number, text, array, object, or_null, default_null, is_filled,
  is_truthy,
}
use asset_tracker.Node.Uuid.{is_uuid, is_filled-is_uuid}
use asset_tracker.Node.Event.{
  Params, Event, Created, created, validation_error, is_uuid_text, errors_of, join, event_of,
  create_event,
}
use asset_tracker.Node.Repository.{IsComplete}

-- Type and name are texts with more than white space, the device's id is a UUID of version 4.
pub record IsValid (p : Params) : Type 0 where
  pub type : String
  pub device_id : String
  pub name : String
  pub type_text : p.type ≡ text type
  pub device_id_text : p.device_id ≡ text device_id
  pub name_text : p.name ≡ text name
  pub type_filled : is_filled (text type) ≡ true
  pub device_id_uuid : is_uuid device_id ≡ true
  pub name_filled : is_filled (text name) ≡ true

filled-text :
    (v : Value) → is_filled v ≡ true → (s : String) × (v ≡ text s) × (is_filled (text s) ≡ true)
unfolding is_filled
filled-text (text s) h = (s, refl, h)
filled-text v h = absurd (cc)

uuid-text : (v : Value) → is_uuid_text v ≡ true → (s : String) × (v ≡ text s) × (is_uuid s ≡ true)
uuid-text (text s) h = (s, refl, h)
uuid-text v h = absurd (cc)

errors_of-empty :
    (p : Params)
    → errors_of p ≡ []
    → (is_filled p.type ≡ true) × (is_uuid_text p.device_id ≡ true) × (is_filled p.name ≡ true)
errors_of-empty p h = ground arith

errors_of-IsValid : (p : Params) → IsValid p → errors_of p ≡ []
errors_of-IsValid p h =
    rw
      (
        h.type_text,
        h.device_id_text,
        h.name_text,
        h.type_filled,
        h.name_filled,
        is_filled-is_uuid h.device_id h.device_id_uuid,
        h.device_id_uuid,
      )
      refl

pub IsValid-errors_of : (p : Params) → errors_of p ≡ [] → IsValid p
IsValid-errors_of p h =
    let (t, d, n) = errors_of-empty p h in
    let (ts, te, tf) = filled-text p.type t in
    let (ds, de, df) = uuid-text p.device_id d in
    let (ns, ne, nf) = filled-text p.name n in
    record {
      type = ts;
      device_id = ds;
      name = ns;
      type_text = te;
      device_id_text = de;
      name_text = ne;
      type_filled = tf;
      device_id_uuid = df;
      name_filled = nf;
    }

-- An event is complete: a missing actor or description is null.
pub event_of-IsComplete : (id now : String) (p : Params) → IsComplete (event_of id now p)
event_of-IsComplete id now p = record {
  actor_known = known p.actor;
  description_known = known p.description;
}
  where
    known : (v : Value) → or_null (default_null v) ≡ default_null v
    known undefined = refl
    known v = refl

abbrev pub count_false : List Bool → ℕ
count_false [] = 0
count_false (b ∷ bs) = (if b then 0 else 1) + count_false bs

-- Which of the three fields are in order.
abbrev pub in_order : Params → List Bool
in_order p =
    is_filled p.type ∷ (is_filled p.device_id && is_uuid_text p.device_id) ∷ is_filled p.name ∷ []

length-errors_of : (p : Params) → length (errors_of p) ≡ count_false (in_order p)
length-errors_of p = ground arith

-- A field that defaults to null where it is undefined.
abbrev pub IsDefaulted : Value → Value → Type 0
IsDefaulted undefined w = w ≡ null
IsDefaulted v w = w ≡ v

-- The event that a call is to give, field by field.
pub record IsMadeOf (id now : String) (p : Params) (x : Event) : Type 0 where
  pub has_id : x.id ≡ text id
  pub has_type : x.type ≡ p.type
  pub has_device_id : x.device_id ≡ p.device_id
  pub has_name : x.name ≡ p.name
  pub has_timestamp :
      ((is_truthy p.timestamp ≡ true) × (x.timestamp ≡ p.timestamp))
      ⊎ ((is_truthy p.timestamp ≡ false) × (x.timestamp ≡ text now))
  pub has_actor : IsDefaulted p.actor x.actor
  pub has_description : IsDefaulted p.description x.description

default_null-IsDefaulted : (v : Value) → IsDefaulted v (default_null v)
default_null-IsDefaulted undefined = refl
default_null-IsDefaulted null = refl
default_null-IsDefaulted (boolean b) = refl
default_null-IsDefaulted (number n) = refl
default_null-IsDefaulted (text t) = refl
default_null-IsDefaulted (array vs) = refl
default_null-IsDefaulted (object fs) = refl

event_of-IsMadeOf : (id now : String) (p : Params) → IsMadeOf id now p (event_of id now p)
event_of-IsMadeOf id now p = record {
  has_id = refl;
  has_type = refl;
  has_device_id = refl;
  has_name = refl;
  has_timestamp = elim (Bool-cases (is_truthy p.timestamp)) [
    | inl given ↦ inl (given, rw given refl)
    | inr missing ↦ inr (missing, rw missing refl)
  ];
  has_actor = default_null-IsDefaulted p.actor;
  has_description = default_null-IsDefaulted p.description;
}

-- A judgement on parameters: an event of them if they are valid, or else a refusal with one
-- message for each of the three fields that is at fault.
pub data Judged (id now : String) (p : Params) (c : Created) : Type 0 where
  accepted :
      IsValid p
      → IsMadeOf id now p (event_of id now p)
      → c ≡ created (event_of id now p)
      → Judged id now p c
  refused :
      ¬ IsValid p
      → (errors : List String) → c ≡ validation_error (join errors) errors
      → length errors ≡ count_false (in_order p)
      → Judged id now p c

-- Every call of `createEvent` gives an event if type and name are texts with more than white space
-- and the device's id is a UUID of version 4: with the new id, the given type, device, name, actor
-- and description, null for one of the last two that is undefined, and the given timestamp or, if
-- that is falsy, the time. Otherwise it refuses, with one message for each of the three fields that
-- is at fault.
pub create_event-Judged : (id now : String) (p : Params) → Judged id now p (create_event id now p)
unfolding create_event
create_event-Judged id now p = go (errors_of p) refl
  where
    go : (errors : List String) → errors_of p ≡ errors → Judged id now p (create_event id now p)
    go [] h = accepted (IsValid-errors_of p h) (event_of-IsMadeOf id now p) (rw h refl)
    go (e ∷ es) h =
        refused (λ v. cc (errors_of-IsValid p v)) (e ∷ es) (rw h refl)
          (ap length (sym h) ∙ length-errors_of p)
