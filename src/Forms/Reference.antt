-- ===== src/Forms/Reference.antt =====
-- A validation library that does what `Zod` asks: it collects an issue for each field with a rule
-- that is missing or empty, in the order of the schema.
use asset_tracker.Prelude.{
  ◌≡◌, refl, ◌≢◌, inl, inr, Bool, true, Option, none, some, List, [], ◌∷◌, String, ◌==◌, eq_iff,
  eq_refl, arith, any, All, ap, sym, subst, Bool-cases, if◌then◌else◌,
}
use asset_tracker.Forms.{
  Rule, min_one, optional_text, Schema, rule_of, Values, Issue, Parsed, success, failure, Faulty,
  Zod,
}

abbrev is_blank : Option String → Bool
is_blank none = true
is_blank (some x) = x == ""

-- The issue of a field, given the rule that stands first for its key in the whole schema.
abbrev check : Values → String → Option Rule → List Issue
check v k (some (min_one m)) = if is_blank (v k) then record { field = k; message = m } ∷ [] else []
check v k _ = []

abbrev prepend : List Issue → List Issue → List Issue
prepend [] is = is
prepend (i ∷ _) is = i ∷ is

issues : Schema → Schema → Values → List Issue
issues whole [] v = []
issues whole ((k, r) ∷ s) v = prepend (check v k (rule_of k whole)) (issues whole s v)

abbrev outcome : Values → List Issue → Parsed
outcome v [] = success v
outcome v (i ∷ is) = failure (i ∷ is)

parse : Schema → Values → Parsed
parse s v = outcome v (issues s s v)

issues-Faulty : (whole s : Schema) (v : Values) → All (Faulty whole v) (issues whole s v)
unfolding issues
issues-Faulty whole [] v = tt
issues-Faulty whole ((k, r) ∷ s) v = go (rule_of k whole) refl (v k) refl (issues-Faulty whole s v)
  where
    go :
        (o : Option Rule)
        → rule_of k whole ≡ o
        → (x : Option String) → v k ≡ x
        → All (Faulty whole v) (issues whole s v)
        → All (Faulty whole v) (prepend (check v k o) (issues whole s v))
    go (some (min_one m)) e none h rest =
        rw h (record { rule = m; listed = e; fault = inl h }, rest)
    go (some (min_one m)) e (some x) h rest = elim (Bool-cases (x == "")) [
      | inl b ↦
          rw (h, b)
            (
              record {
                rule = m;
                listed = e;
                fault = inr (rw h (ap some ((eq_iff x "").0 b)), refl);
              },
              rest,
            )
      | inr b ↦ rw (h, b) rest
    ]
    go none e x h rest = rest
    go (some optional_text) e x h rest = rest

issues_complete :
    (whole s : Schema) (v : Values) (k m : String) (r : Rule)
    → rule_of k whole ≡ some (min_one m)
    → v k ≡ some ""
    → rule_of k s ≡ some r
    → any (λ i. i.field == k) (issues whole s v) ≡ true
unfolding issues
issues_complete whole [] v k m r ruled blank listed = cc
issues_complete whole ((j, q) ∷ s) v k m r ruled blank listed = elim (Bool-cases (j == k)) [
  | inl same ↦ let e = (eq_iff j k).0 same in rw (e, ruled, blank, eq_refl k) refl
  | inr other ↦
      let rest = issues_complete whole s v k m r ruled blank (ground arith) in
      any_prepend (check v j (rule_of j whole)) (issues whole s v) rest
]
  where
    any_prepend :
        (xs ys : List Issue)
        → any (λ i. i.field == k) ys ≡ true
        → any (λ i. i.field == k) (prepend xs ys) ≡ true
    any_prepend [] ys h = h
    any_prepend (x ∷ xs) ys h = ground arith

outcome-failure : (v : Values) (l is : List Issue) → outcome v l ≡ failure is → (l ≡ is) × (is ≢ [])
outcome-failure v [] is e = absurd (cc)
outcome-failure v (x ∷ xs) is e = (cc, λ n. cc)

outcome-success : (v v' : Values) (l : List Issue) → outcome v l ≡ success v' → (l ≡ []) × (v ≡ v')
outcome-success v v' [] e = (refl, cc)
outcome-success v v' (x ∷ xs) e = absurd (cc)

parse_meets :
    (s : Schema) (v v' : Values)
    → parse s v ≡ success v'
    → (k m : String) → rule_of k s ≡ some (min_one m)
    → v k ≢ some ""
unfolding parse
parse_meets s v v' e k m ruled blank =
    let (none_found, same) = outcome-success v v' (issues s s v) e in
    let found = issues_complete s s v k m _ ruled blank ruled in
    absurd (cc (ap (λ l. any (λ (i : Issue). i.field == k) l) none_found))

parse_failure :
    (s : Schema) (v : Values) (is : List Issue)
    → parse s v ≡ failure is
    → (issues s s v ≡ is) × (is ≢ [])
unfolding parse
parse_failure s v is e = outcome-failure v (issues s s v) is e

parse_keeps : (s : Schema) (v v' : Values) → parse s v ≡ success v' → (k : String) → v' k ≡ v k
unfolding parse
parse_keeps s v v' e k = ap (λ w. w k) (sym (outcome-success v v' (issues s s v) e).1)

pub reference : Zod
reference = record {
  safe_parse = parse;
  success_meets = parse_meets;
  success_keeps = λ s v v' e k r listed. parse_keeps s v v' e k;
  failure_issues =
      λ s v is e. subst (All (Faulty s v)) (parse_failure s v is e).0 (issues-Faulty s s v);
  failure_nonempty = λ s v is e. (parse_failure s v is e).1;
  failure_complete = λ s v is e k m ruled blank.
      subst (λ l. any (λ i. i.field == k) l ≡ true) (parse_failure s v is e).0
        (issues_complete s s v k m _ ruled blank ruled);
}
