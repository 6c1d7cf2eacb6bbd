-- ===== src/Trace/Laws.antt =====
-- What the filters of the trace table let through, and what their controls do.
use asset_tracker.Prelude.{
  ◌≤◌, ◌≡◌, refl, ◌≢◌, ◌↔◌, ◌⊎◌, true, false, not, List, [], ◌∷◌, String, includes, eq_iff, arith,
  sym, ◌∙◌, ap, Bool-cases, inl, inr,
}
use mathlib.Core.Bool.{false≢true}
use asset_tracker.Api.Metrics.{RequestTrace}
use asset_tracker.Trace.{
  MethodFilter, all, method_name, FilterState, no_filters, keeps, apply_filters,
  count_active_filters, picks_method, toggles_errors, clears_all, types_path, set_filters,
}

-- What the filters ask of a request, independent of the order of the tests.
pub record Passes (lower : String → String) (f : FilterState) (t : RequestTrace) : Type 0 where
  pub of_method : (f.method ≡ all) ⊎ (t.method ≡ method_name f.method)
  pub an_error : f.errors_only ≡ true → 400 ≤ t.status
  pub on_path : f.path_search ≢ "" → includes (lower t.path) (lower f.path_search) ≡ true

keeps_iff :
    (lower : String → String) (f : FilterState) (t : RequestTrace)
    → (keeps lower f t ≡ true) ↔ Passes lower f t
unfolding keeps
keeps_iff lower f t =
    ground (arith, eq_iff f.path_search "", eq_iff t.method (method_name f.method))

-- `ys` is `xs` without the items that do not satisfy `P`, in the same order.
pub data Selects {A : Type 0} (P : A → Type 0) : List A → List A → Type 0 where
  done : Selects P [] []
  keep : {x : A} {xs ys : List A} → P x → Selects P xs ys → Selects P (x ∷ xs) (x ∷ ys)
  drop : {x : A} {xs ys : List A} → ¬ P x → Selects P xs ys → Selects P (x ∷ xs) ys

-- The filtered table keeps, in order, exactly the requests that have the chosen method or any if
-- it is ALL, have status 400 or more if only errors are wanted, and have the searched text in
-- their path, up to case, if one is given.
pub apply_filters-Selects :
    (lower : String → String) (f : FilterState) (traces : List RequestTrace)
    → Selects (Passes lower f) traces (apply_filters lower traces f)
unfolding apply_filters
apply_filters-Selects lower f [] = done
apply_filters-Selects lower f (t ∷ ts) = elim (Bool-cases (keeps lower f t)) [
  | inl kept ↦ rw kept (keep ((keeps_iff lower f t).0 kept) (apply_filters-Selects lower f ts))
  | inr dropped ↦ rw dropped (
      drop (λ p. false≢true (sym dropped ∙ (keeps_iff lower f t).1 p))
        (apply_filters-Selects lower f ts))
]

unfiltered :
    (lower : String → String) (traces : List RequestTrace)
    → apply_filters lower traces no_filters ≡ traces
unfolding apply_filters keeps
unfiltered lower [] = refl
unfiltered lower (t ∷ ts) = ap (λ r. t ∷ r) (unfiltered lower ts)

FilterState-path :
    (f : FilterState) → f.method ≡ all → f.errors_only ≡ false → f.path_search ≡ "" → f ≡ no_filters
FilterState-path f m e p = ground arith

-- The count of active filters is 0 exactly in the initial state of the filters, to which "Clear
-- all" leads from every state, and never passes 3. With a count of 0 the table shows every
-- request.
count_active_filters-zero :
    (lower : String → String) (traces : List RequestTrace) (f : FilterState)
    → (count_active_filters f ≤ 3)
      × ((count_active_filters f ≡ 0) ↔ (f ≡ no_filters))
      × (set_filters clears_all f ≡ no_filters)
      × (count_active_filters f ≡ 0 → apply_filters lower traces f ≡ traces)
unfolding count_active_filters set_filters
count_active_filters-zero lower traces f = (
  ground arith,
  (λ h. ground (arith, eq_iff f.path_search ""), λ h. ground (arith, eq_iff f.path_search "")),
  refl,
  λ h. ground (arith, eq_iff f.path_search "", unfiltered lower traces),
)

-- Picking a method selects it, or goes back to ALL if it is the selected one; so a second click
-- on a chip undoes the first one from ALL. Toggling twice changes nothing. No control but "Clear
-- all" touches another filter than its own.
set_filters_controls :
    (m : MethodFilter) (v : String) (f : FilterState)
    → let picked = set_filters (picks_method m) f in
      let toggled = set_filters toggles_errors f in
      let typed = set_filters (types_path v) f in
      ((f.method ≢ m) → picked ≡ record f { method = m })
      × ((f.method ≡ m) → picked ≡ record f { method = all })
      × ((f.method ≡ all) → set_filters (picks_method m) picked ≡ f)
      × (toggled ≡ record f { errors_only = not f.errors_only })
      × (set_filters toggles_errors toggled ≡ f)
      × (typed ≡ record f { path_search = v })
unfolding set_filters
set_filters_controls m v f = ground arith
