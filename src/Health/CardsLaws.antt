-- ===== src/Health/CardsLaws.antt =====
-- The order of the metrics in MetricsCard.tsx.
use asset_tracker.Prelude.{
  ℕ, ◌≡◌, refl, Bool, true, false, not, ◌&&◌, ◌++◌, Option, none, some, List, [], ◌∷◌, String, ◌==◌,
  eq_iff, arith, filter, All, All-imp, All-append, filter-All, ap, Bool-cases, inl, inr, ◌∙◌, ◌⊎◌,
}
use asset_tracker.Health.Cards.{field_index, above, insert_entry, sort_metrics_by_field_order}

module _ {V : Type 0} where
  abbrev pub is_requests : String × V → Bool
  is_requests e = e.0 == "requests_total"

  abbrev pub is_errors : String × V → Bool
  is_errors e = e.0 == "errors_total"

  abbrev pub is_other : String × V → Bool
  is_other e = not (is_requests e) && not (is_errors e)

  abbrev goes_after : String × V → String × V → Bool
  goes_after x y = above (field_index x.0) (field_index y.0)

  insert_entry-head :
      (x : String × V) (l : List (String × V))
      → All (λ y. goes_after x y ≡ false) l
      → insert_entry x l ≡ x ∷ l
  unfolding insert_entry
  insert_entry-head x [] h = refl
  insert_entry-head x (y ∷ l) h = rw h.0

  insert_entry-skip :
      (x : String × V) (l r : List (String × V))
      → All (λ y. goes_after x y ≡ true) l
      → insert_entry x (l ++ r) ≡ l ++ insert_entry x r
  unfolding insert_entry
  insert_entry-skip x [] r h = refl
  insert_entry-skip x (y ∷ l) r h = rw h.0 (ap (λ t. y ∷ t) (insert_entry-skip x l r h.1))

  index-requests : (x : String × V) → is_requests x ≡ true → field_index x.0 ≡ some 0
  unfolding field_index
  index-requests x h = ground arith

  index-errors : (x : String × V) → is_errors x ≡ true → field_index x.0 ≡ some 1
  unfolding field_index
  index-errors (k, v) h = rw ((eq_iff k "errors_total").0 h) refl

  index-other : (x : String × V) → is_other x ≡ true → field_index x.0 ≡ none
  unfolding field_index
  index-other x h = ground arith

  -- Each entry is in one group.
  groups :
      (x : String × V)
      → (is_requests x ≡ true) × (is_errors x ≡ false) × (is_other x ≡ false)
        ⊎ (is_requests x ≡ false) × (is_errors x ≡ true) × (is_other x ≡ false)
        ⊎ (is_requests x ≡ false) × (is_errors x ≡ false) × (is_other x ≡ true)
  groups (k, v) = elim (Bool-cases (k == "requests_total")) [
    | inl r ↦ inl (r, rw ((eq_iff k "requests_total").0 r) refl, ground arith)
    | inr r ↦ ground arith
  ]

  goes_after-All :
      (x : String × V) (k j : Option ℕ) (b : Bool) (l : List (String × V))
      → field_index x.0 ≡ k
      → above k j ≡ b
      → All (λ y. field_index y.0 ≡ j) l
      → All (λ y. goes_after x y ≡ b) l
  goes_after-All x k j b l hk hb = All-imp (λ y hj. rw (hk, hj) hb) l

  -- The card shows the entries called requests_total first, then those called errors_total, then
  -- all others, and within each of these groups in the order of the object: no entry is lost,
  -- doubled or moved within its group.
  pub sort_metrics-groups :
      (es : List (String × V))
      → sort_metrics_by_field_order es
        ≡ filter is_requests es ++ (filter is_errors es ++ filter is_other es)
  unfolding sort_metrics_by_field_order
  sort_metrics-groups [] = refl
  sort_metrics-groups (e ∷ es) =
      let as' = filter is_requests es in
      let bs = filter is_errors es in
      let cs = filter is_other es in
      let first = All-imp (λ y. index-requests y) as' (filter-All is_requests es) in
      let second = All-imp (λ y. index-errors y) bs (filter-All is_errors es) in
      let third = All-imp (λ y. index-other y) cs (filter-All is_other es) in
      elim (groups e) [
        | inl (r, er, o) ↦
            let k = index-requests e r in
            rw (sort_metrics-groups es, r, er)
              (insert_entry-head e (as' ++ (bs ++ cs)) (
                All-append _ as' (bs ++ cs) (goes_after-All e _ _ _ as' k refl first) (
                  All-append _ bs cs (goes_after-All e _ _ _ bs k refl second)
                    (goes_after-All e _ _ _ cs k refl third))))
        | inr (inl (r, er, o)) ↦
            let k = index-errors e er in
            rw (sort_metrics-groups es, r, er)
              (insert_entry-skip e as' (bs ++ cs) (goes_after-All e _ _ _ as' k refl first)
                ∙ ap (λ t. as' ++ t)
                    (insert_entry-head e (bs ++ cs) (
                      All-append _ bs cs (goes_after-All e _ _ _ bs k refl second)
                        (goes_after-All e _ _ _ cs k refl third))))
        | inr (inr (r, er, o)) ↦
            let k = index-other e o in
            rw (sort_metrics-groups es, r, er)
              (insert_entry-skip e as' (bs ++ cs) (goes_after-All e _ _ _ as' k refl first)
                ∙ ap (λ t. as' ++ t)
                    (insert_entry-skip e bs cs (goes_after-All e _ _ _ bs k refl second)
                      ∙ ap (λ t. bs ++ t)
                          (insert_entry-head e cs (goes_after-All e _ _ _ cs k refl third))))
      ]
