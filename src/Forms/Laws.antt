-- ===== src/Forms/Laws.antt =====
-- The messages that a form shows for the issues of a refused input.
use asset_tracker.Prelude.{
  ◌≡◌, refl, ◌≢◌, inl, inr, true, false, Option, none, some, List, [], ◌∷◌, String, ◌==◌, eq_iff,
  arith, truthy, any, All, if◌then◌else◌, ap, sym, ◌∙◌, Bool-cases,
}
use asset_tracker.Storage.{lookup, lookup-insert}
use asset_tracker.Forms.{
  Schema, rule_of, Parsed, Values, Issue, Faulty, Zod, success, failure, min_one, Errors, shown,
  add_issue, field_errors,
}

-- The first message for a field that is not empty.
abbrev pub first_message : String → List Issue → Option String
first_message k [] = none
first_message k (i ∷ is) =
    let rest = first_message k is in
    if i.field == k then (if truthy i.message then some i.message else rest) else rest

abbrev pub or_first : Option String → Option String → Option String
or_first none o = o
or_first (some m) o = some m

shown-add_issue :
    (i : Issue) (errors : Errors) (k : String)
    → shown (add_issue i errors) k
      ≡ or_first
          (shown errors k)
          (if i.field == k then (if truthy i.message then some i.message else none) else none)
unfolding shown add_issue
shown-add_issue i errors k =
    ground (arith, eq_iff i.field k, lookup-insert i.field k i.message errors)

-- What the loop leaves at a field is what stood there, or else the first message for it.
shown-field_errors :
    (errors : Errors) (is : List Issue) (k : String)
    → shown (field_errors errors is) k ≡ or_first (shown errors k) (first_message k is)
unfolding field_errors
shown-field_errors errors [] k = ground arith
shown-field_errors errors (i ∷ is) k =
    ground (arith, shown-field_errors (add_issue i errors) is k, shown-add_issue i errors k)

-- Where no issue names the field, it has no message.
first_message-none :
    (k : String) (is : List Issue) → any (λ i. i.field == k) is ≡ false → first_message k is ≡ none
first_message-none k [] h = refl
first_message-none k (i ∷ is) h = ground (arith, first_message-none k is)

first_message-some :
    (k m : String) (is : List Issue)
    → m ≢ ""
    → All (λ i. i.field ≡ k → i.message ≡ m) is
    → any (λ i. i.field == k) is ≡ true
    → first_message k is ≡ some m
first_message-some k m [] full h a = cc
first_message-some k m (i ∷ is) full (h, hs) a =
    ground (arith, eq_iff i.field k, eq_iff i.message "", first_message-some k m is full hs)

named_issue :
    (s : Schema) (v : Values) (k : String) (is : List Issue)
    → All (Faulty s v) is
    → any (λ i. i.field == k) is ≡ true
    → (i : Issue) × (i.field ≡ k) × Faulty s v i
named_issue s v k [] h a = absurd (cc)
named_issue s v k (i ∷ is) (f, h) a = elim (Bool-cases (i.field == k)) [
  | inl e ↦ (i, (eq_iff i.field k).0 e, f)
  | inr e ↦ named_issue s v k is h (ground arith)
]

module _ (z : Zod) (s : Schema) (v : Values) (k m x : String)
    (ruled : rule_of k s ≡ some (min_one m)) (given : v k ≡ some x) where
  messages_agree :
      (is : List Issue) → All (Faulty s v) is → x ≡ "" → All (λ i. i.field ≡ k → i.message ≡ m) is
  messages_agree [] h e = tt
  messages_agree (i ∷ is) (f, h) e = (λ n. one i f n, messages_agree is h e)
    where
      one : (j : Issue) → Faulty s v j → j.field ≡ k → j.message ≡ m
      one j g n =
          let same : some (min_one g.rule) ≡ some (min_one m) =
            sym g.listed ∙ ap (λ t. rule_of t s) n ∙ ruled in
          let here : v j.field ≡ some x = ap v n ∙ given in
          elim g.fault [ inl missing ↦ absurd (cc) | inr (_, message) ↦ cc ]

  first_message-failure :
      (is : List Issue)
      → m ≢ ""
      → z.safe_parse s v ≡ failure is
      → first_message k is ≡ (if x == "" then some m else none)
  first_message-failure is full e = elim (Bool-cases (x == "")) [
    | inl empty ↦
        let blank = (eq_iff x "").0 empty in
        rw empty (
          first_message-some k m is full (messages_agree is (z.failure_issues s v is e) blank)
            (z.failure_complete s v is e k m ruled (given ∙ ap some blank)))
    | inr not_empty ↦ rw not_empty (elim (Bool-cases (any (λ i. i.field == k) is)) [
      | inr unnamed ↦ first_message-none k is unnamed
      | inl named ↦
          let (i, n, f) = named_issue s v k is (z.failure_issues s v is e) named in
          let here : v i.field ≡ some x = ap v n ∙ given in
          absurd (elim f.fault [ inl missing ↦ cc | inr (blank, _) ↦ ground (arith, eq_iff x "") ])
    ])
  ]

  -- After a refusal a field with a rule shows the rule's message exactly if it was given empty.
  pub shown-failure :
      (is : List Issue)
      → m ≢ ""
      → z.safe_parse s v ≡ failure is
      → shown (field_errors [] is) k ≡ (if x == "" then some m else none)
  unfolding shown lookup
  shown-failure is full e = shown-field_errors [] is k ∙ first_message-failure is full e

-- A field that no issue can name shows nothing.
pub shown-failure_other :
    (z : Zod) (s : Schema) (v : Values) (k : String) (is : List Issue)
    → ((m : String) → rule_of k s ≢ some (min_one m))
    → z.safe_parse s v ≡ failure is
    → shown (field_errors [] is) k ≡ none
unfolding shown lookup
shown-failure_other z s v k is free e =
    shown-field_errors [] is k ∙ elim (Bool-cases (any (λ i. i.field == k) is)) [
      | inr unnamed ↦ first_message-none k is unnamed
      | inl named ↦
          let (i, n, f) = named_issue s v k is (z.failure_issues s v is e) named in
          absurd (free f.rule (ap (λ t. rule_of t s) (sym n) ∙ f.listed))
    ]

-- If every field with a rule is given and not empty, the input is accepted.
pub success_of_filled :
    (z : Zod) (s : Schema) (v : Values)
    → ((k m : String) → rule_of k s ≡ some (min_one m) → (x : String) × (v k ≡ some x) × (x ≢ ""))
    → (v' : Values) × (z.safe_parse s v ≡ success v')
success_of_filled z s v all_filled = go (z.safe_parse s v) refl
  where
    go : (r : Parsed) → z.safe_parse s v ≡ r → (v' : Values) × (z.safe_parse s v ≡ success v')
    go (success v') e = (v', e)
    go (failure []) e = absurd (z.failure_nonempty s v [] e refl)
    go (failure (i ∷ is)) e =
        let (f, rest) = z.failure_issues s v (i ∷ is) e in
        let (x, given, full) = all_filled i.field f.rule f.listed in
        absurd (elim f.fault [ inl missing ↦ cc | inr (blank, _) ↦ full (cc) ])
