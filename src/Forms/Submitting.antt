-- ===== src/Forms/Submitting.antt =====
-- Submitting the forms: what reaches the parent, and which messages stand at the fields.
use asset_tracker.Prelude.{
  ◌≡◌, refl, ◌≢◌, ◌⊎◌, inl, inr, Option, none, some, List, [], String, ◌==◌, eq_iff, arith, ap,
  if◌then◌else◌, Bool-cases,
}
use asset_tracker.Forms.{
  Issue, rule_of, Parsed, success, failure, Zod, min_one, create_device_schema, create_event_schema,
  shown, field_errors,
}
use asset_tracker.Forms.Laws.{shown-failure, shown-failure_other, success_of_filled}
use asset_tracker.Forms.Device
use asset_tracker.Forms.Device.{DeviceForm}
use asset_tracker.Forms.Event
use asset_tracker.Forms.Event.{EventForm, event_values, input, or_undefined}

-- A parse, with its equation.
Parsed-cases :
    (r : Parsed) → ((v : String → Option String) × (r ≡ success v)) ⊎ ((is : _) × (r ≡ failure is))
Parsed-cases (success v) = inl (v, refl)
Parsed-cases (failure is) = inr (is, refl)

-- The rules of create_device_schema.
device_filled :
    (f : DeviceForm)
    → f.name ≢ ""
    → f.type ≢ ""
    → (k m : String) → rule_of k create_device_schema ≡ some (min_one m)
    → (x : String) × (Device.values f k ≡ some x) × (x ≢ "")
device_filled f n t k m e = elim (Bool-cases ("name" == k)) [
  | inl is_name ↦ rw (← (eq_iff "name" k).0 is_name) (f.name, refl, n)
  | inr not_name ↦ elim (Bool-cases ("type" == k)) [
    | inl is_type ↦ rw (← (eq_iff "type" k).0 is_type) (f.type, refl, t)
    | inr not_type ↦ absurd (ground arith)
  ]
]

blank-cases : (x : String) → (x ≡ "") ⊎ (x ≢ "")
blank-cases x = elim (Bool-cases (x == "")) [
  | inl b ↦ inl ((eq_iff x "").0 b)
  | inr b ↦ inr (λ e. ground (arith, eq_iff x ""))
]

device_blank :
    (z : Zod) (f : DeviceForm) (is : List Issue)
    → z.safe_parse create_device_schema (Device.values f) ≡ failure is
    → (f.name ≡ "") ⊎ (f.type ≡ "")
device_blank z f is e = elim (blank-cases f.name) [
  | inl b ↦ inl b
  | inr n ↦ elim (blank-cases f.type) [
    | inl b ↦ inr b
    | inr t ↦
        let (v, ok) =
          success_of_filled z create_device_schema (Device.values f) (device_filled f n t) in
        absurd (cc)
  ]
]

-- Submitting the form of a device. With a name and a type that are not empty, `onSubmit` is called
-- with both as they were typed and no message is left. Otherwise it is not called, and each of the
-- two fields shows its message exactly if it is empty. The typed texts stay in every case.
pub device-handle_submit :
    (z : Zod) (f : DeviceForm)
    → let (f', called) = Device.handle_submit z f in
      (f'.name ≡ f.name)
      × (f'.type ≡ f.type)
      × ((f.name ≢ "")
            × (f.type ≢ "")
            × (called ≡ some (record { name = f.name; type = f.type }))
            × (f'.errors ≡ [])
          ⊎ ((f.name ≡ "") ⊎ (f.type ≡ ""))
            × (called ≡ none)
            × (shown f'.errors "name" ≡ (if f.name == "" then some "Name is required" else none))
            × (shown f'.errors "type" ≡ (if f.type == "" then some "Type is required" else none)))
unfolding Device.handle_submit
device-handle_submit z f =
    elim (Parsed-cases (z.safe_parse create_device_schema (Device.values f))) [
      | inl (v, e) ↦
          let meets = z.success_meets create_device_schema (Device.values f) v e in
          let keeps = z.success_keeps create_device_schema (Device.values f) v e in
          let kn = keeps "name" _ refl in
          let kt = keeps "type" _ refl in
          rw e (
            refl,
            refl,
            inl (
              λ b. meets "name" _ refl (ap some b),
              λ b. meets "type" _ refl (ap some b),
              ground arith,
              refl,
            ),
          )
      | inr (is, e) ↦ rw e (
        refl,
        refl,
        inr (
          device_blank z f is e,
          refl,
          shown-failure z create_device_schema (Device.values f) "name" _ f.name refl refl is
              (ground (arith, eq_iff "Name is required" "")) e,
          shown-failure z create_device_schema (Device.values f) "type" _ f.type refl refl is
              (ground (arith, eq_iff "Type is required" "")) e,
        ),
      )
    ]

module _ (t d n a desc : String) where
  abbrev given : String → Option String
  given = event_values t d n a desc

  event_filled :
      t ≢ ""
      → d ≢ ""
      → n ≢ ""
      → (k m : String) → rule_of k create_event_schema ≡ some (min_one m)
      → (x : String) × (given k ≡ some x) × (x ≢ "")
  event_filled ft fd fn k m e = elim (Bool-cases ("type" == k)) [
    | inl is_type ↦ rw (← (eq_iff "type" k).0 is_type) (t, refl, ft)
    | inr not_type ↦ elim (Bool-cases ("deviceId" == k)) [
      | inl is_device ↦ rw (← (eq_iff "deviceId" k).0 is_device) (d, refl, fd)
      | inr not_device ↦ elim (Bool-cases ("name" == k)) [
        | inl is_name ↦ rw (← (eq_iff "name" k).0 is_name) (n, refl, fn)
        | inr not_name ↦ absurd (ground arith)
      ]
    ]
  ]

  event_blank :
      (z : Zod) (is : List Issue)
      → z.safe_parse create_event_schema given ≡ failure is
      → (t ≡ "") ⊎ (d ≡ "") ⊎ (n ≡ "")
  event_blank z is e = elim (blank-cases t) [
    | inl b ↦ inl b
    | inr ft ↦ elim (blank-cases d) [
      | inl b ↦ inr (inl b)
      | inr fd ↦ elim (blank-cases n) [
        | inl b ↦ inr (inr b)
        | inr fn ↦
            let (v, ok) = success_of_filled z create_event_schema given (event_filled ft fd fn) in
            absurd (cc)
      ]
    ]
  ]

  -- How the validation of an event ends: it succeeds with the event as it was typed if type,
  -- device and name are not empty, and else fails with issues that show, once collected, the
  -- message of each of the three exactly if it is empty, and none at any other field.
  pub data Validated (r : Parsed) : Type 0 where
    accepted :
        (v : String → Option String)
        → r ≡ success v
        → t ≢ ""
        → d ≢ ""
        → n ≢ ""
        → input v ≡ record {
          type = t;
          device_id = d;
          name = n;
          actor = or_undefined a;
          description = or_undefined desc;
        }
        → Validated r
    refused :
        (is : List Issue)
        → r ≡ failure is
        → (t ≡ "") ⊎ (d ≡ "") ⊎ (n ≡ "")
        → shown (field_errors [] is) "type" ≡ (if t == "" then some "Type is required" else none)
        → shown (field_errors [] is) "deviceId"
          ≡ (if d == "" then some "Device is required" else none)
        → shown (field_errors [] is) "name" ≡ (if n == "" then some "Name is required" else none)
        → shown (field_errors [] is) "form" ≡ none
        → Validated r

  pub event-Validated : (z : Zod) → Validated (z.safe_parse create_event_schema given)
  event-Validated z = elim (Parsed-cases (z.safe_parse create_event_schema given)) [
    | inl (v, e) ↦
        let meets = z.success_meets create_event_schema given v e in
        let keeps = z.success_keeps create_event_schema given v e in
        let kt = keeps "type" _ refl in
        let kd = keeps "deviceId" _ refl in
        let kn = keeps "name" _ refl in
        let ka = keeps "actor" _ refl in
        let kx = keeps "description" _ refl in
        accepted v e (λ b. meets "type" _ refl (ap some b))
          (λ b. meets "deviceId" _ refl (ap some b)) (λ b. meets "name" _ refl (ap some b))
          (ground arith)
    | inr (is, e) ↦
        refused is e (event_blank z is e)
          (shown-failure z create_event_schema given "type" _ t refl refl is
            (ground (arith, eq_iff "Type is required" "")) e)
          (shown-failure z create_event_schema given "deviceId" _ d refl refl is
            (ground (arith, eq_iff "Device is required" "")) e)
          (shown-failure z create_event_schema given "name" _ n refl refl is
            (ground (arith, eq_iff "Name is required" "")) e)
          (shown-failure_other z create_event_schema given "form" is (λ m. cc) e)
  ]

-- Submitting the form of an event. With a type, a device and a name that are not empty, `onSubmit`
-- is called with the event as it was typed, without an actor or description that is empty, and no
-- message is left. Otherwise it is not called, and each of the three fields shows its message
-- exactly if it is empty.
pub event-handle_submit :
    (z : Zod) (f : EventForm)
    → let (f', called) = Event.handle_submit z f in
      ((f.type ≢ "")
        × (f.device_id ≢ "")
        × (f.name ≢ "")
        × (called
            ≡ some (record {
              type = f.type;
              device_id = f.device_id;
              name = f.name;
              actor = or_undefined f.actor;
              description = or_undefined f.description;
            }))
        × (f'.errors ≡ []))
      ⊎ (((f.type ≡ "") ⊎ (f.device_id ≡ "") ⊎ (f.name ≡ ""))
          × (called ≡ none)
          × (shown f'.errors "type" ≡ (if f.type == "" then some "Type is required" else none))
          × (shown f'.errors "deviceId"
              ≡ (if f.device_id == "" then some "Device is required" else none))
          × (shown f'.errors "name" ≡ (if f.name == "" then some "Name is required" else none)))
unfolding Event.handle_submit
event-handle_submit z f = elim (event-Validated f.type f.device_id f.name f.actor f.description z) [
  | accepted v e t d n same ↦ rw e (inl (t, d, n, ap some same, refl))
  | refused is e blank ht hd hn hf ↦ rw e (inr (blank, refl, ht, hd, hn))
]
