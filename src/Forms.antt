-- ===== src/Forms.antt =====
-- The validated forms: the schemas of web-ui/src/lib/schemas, the validation library `zod` as a
-- parameter, and the loop with which DeviceForm.tsx, EventForm.tsx and devices.$id.tsx turn the
-- issues of a refused input into one message for each field.
pub mod Laws
pub mod Reference
pub mod Device
pub mod Event
pub mod Submitting
pub mod Replies
use asset_tracker.Prelude.{
  ◌≡◌, ◌≢◌, ◌⊎◌, Bool, true, Option, none, some, List, [], ◌∷◌, String, ◌==◌, truthy, any, All,
  if◌then◌else◌,
}
use asset_tracker.Storage.{lookup, insert}

-- `z.string().min(1, message)` and `z.string().optional()`.
pub data Rule : Type 0 where
  min_one : (message : String) → Rule
  optional_text : Rule

-- `z.string().min(1, message).optional()`, which no form parses by.
pub data PatchRule : Type 0 where
  optional_min_one : (message : String) → PatchRule

-- `z.object`
abbrev pub Schema : Type 0
Schema = List (String × Rule)

abbrev pub login_request_schema : Schema
login_request_schema =
    ("username", min_one "Username is required") ∷ ("password", min_one "Password is required") ∷ []

abbrev pub create_device_schema : Schema
create_device_schema =
    ("name", min_one "Name is required") ∷ ("type", min_one "Type is required") ∷ []

abbrev pub update_device_schema : List (String × PatchRule)
update_device_schema =
    ("name", optional_min_one "Name is required")
    ∷ ("type", optional_min_one "Type is required")
    ∷ []

abbrev pub create_event_schema : Schema
create_event_schema =
    ("type", min_one "Type is required")
    ∷ ("deviceId", min_one "Device is required")
    ∷ ("name", min_one "Name is required")
    ∷ ("actor", optional_text)
    ∷ ("description", optional_text)
    ∷ []

-- The rule of a field; the keys of an object are distinct.
abbrev pub rule_of : String → Schema → Option Rule
rule_of k [] = none
rule_of k ((j, r) ∷ s) = if j == k then some r else rule_of k s

-- An object whose fields are texts; `none` is undefined.
abbrev pub Values : Type 0
Values = String → Option String

pub record Issue : Type 0 where
  pub field : String
  pub message : String

pub data Parsed : Type 0 where
  success : Values → Parsed
  failure : List Issue → Parsed

-- An issue names a field with a rule, and that field is missing, or it is empty and the message
-- is the rule's.
pub record Faulty (s : Schema) (v : Values) (i : Issue) : Type 0 where
  pub rule : String
  pub listed : rule_of i.field s ≡ some (min_one rule)
  pub fault : (v i.field ≡ none) ⊎ ((v i.field ≡ some "") × (i.message ≡ rule))

-- `safeParse` over schemas of such rules, as zod documents it:
-- a success has every field as it was given and meets each rule, a failure lists an issue for
-- each empty field that may not be, and no other issue than of such and of missing fields.
pub record Zod : Type 0 where
  pub safe_parse : Schema → Values → Parsed
  pub success_meets :
      (s : Schema) (v v' : Values)
      → safe_parse s v ≡ success v'
      → (k m : String) → rule_of k s ≡ some (min_one m)
      → v k ≢ some ""
  pub success_keeps :
      (s : Schema) (v v' : Values)
      → safe_parse s v ≡ success v'
      → (k : String) (r : Rule) → rule_of k s ≡ some r
      → v' k ≡ v k
  pub failure_issues :
      (s : Schema) (v : Values) (is : List Issue)
      → safe_parse s v ≡ failure is
      → All (Faulty s v) is
  pub failure_nonempty :
      (s : Schema) (v : Values) (is : List Issue) → safe_parse s v ≡ failure is → is ≢ []
  pub failure_complete :
      (s : Schema) (v : Values) (is : List Issue)
      → safe_parse s v ≡ failure is
      → (k m : String) → rule_of k s ≡ some (min_one m)
      → v k ≡ some ""
      → any (λ i. i.field == k) is ≡ true

-- The messages of a form, under the names of its fields.
abbrev pub Errors : Type 0
Errors = List (String × String)

-- The message that stands at a field, if any: an empty one does not show.
abbrev filled : Option String → Option String
filled none = none
filled (some m) = if truthy m then some m else none

unfoldable pub shown : Errors → String → Option String
shown errors k = filled (lookup k errors)

abbrev is_shown : Option String → Bool
is_shown none = Bool.false
is_shown (some m) = true

-- One round of the loop: `if (!fieldErrors[field]) fieldErrors[field] = issue.message`.
unfoldable pub add_issue : Issue → Errors → Errors
unfolding shown
add_issue i errors =
    if is_shown (shown errors i.field) then errors else insert i.field i.message errors

unfoldable pub field_errors : Errors → List Issue → Errors
unfolding add_issue
field_errors errors [] = errors
field_errors errors (i ∷ is) = field_errors (add_issue i errors) is
