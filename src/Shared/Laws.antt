-- ===== src/Shared/Laws.antt =====
-- The focus trap of the modal, and the recovery of the error boundary.
use asset_tracker.Prelude.{
  ℕ, ◌+◌, ◌-◌, ◌%◌, ◌<◌, ◌≡◌, refl, ◌≢◌, Bool, true, false, List, [], ◌∷◌, String, arith,
  if◌then◌else◌,
}
use asset_tracker.View.{View, clicks}
use asset_tracker.Shared.Modal.{
  Place, outside, item, Key, escape, other_key, tab, Reaction, closes, left_to_browser, focuses,
  handle_key_down, Focus, opened, closed,
}
use asset_tracker.Shared.Boundary.{
  new_boundary, get_derived_state_from_error, handle_retry, boundary_view,
}

-- Where the focus is after a key, if the browser, left to itself, moves from one focusable element
-- of the page to the next, or with shift to the one before.
abbrev browser : Bool → ℕ → Place
browser shift i = if shift then item (i - 1) else item (i + 1)

abbrev pub moved : Bool → ℕ → Reaction → Place
moved shift i (focuses p) = p
moved shift i closes = item i
moved shift i left_to_browser = browser shift i

next_last : (n i : ℕ) → i < n → i ≡ n - 1 → (i + 1) % n ≡ 0
next_last n i h e = grind arith

next_inner : (n i : ℕ) → i < n → i ≢ n - 1 → (i + 1) % n ≡ i + 1
next_inner n i h e = grind arith

before_first : (n i : ℕ) → i < n → i ≡ 0 → (i + n - 1) % n ≡ n - 1
before_first n i h e = grind arith

before_inner : (n i : ℕ) → i < n → i ≢ 0 → (i + n - 1) % n ≡ i - 1
before_inner n i h e = grind arith

closing_key : (k : Key) (n : ℕ) (p : Place) → handle_key_down k n p ≡ closes → k ≡ escape
unfolding handle_key_down
closing_key escape n p e = refl
closing_key other_key n p e = cc
closing_key (tab shift) n p e = absurd (ground arith)

-- With the focus on one of the n focusable elements of the panel, Tab goes round them: forwards to
-- the next modulo n, with shift backwards, and so never leaves the panel; Escape closes the modal
-- wherever the focus is, and no other key does.
pub handle_key_down-cycles :
    (n i : ℕ)
    → i < n
    → (moved false i (handle_key_down (tab false) n (item i)) ≡ item ((i + 1) % n))
      × (moved true i (handle_key_down (tab true) n (item i)) ≡ item ((i + n - 1) % n))
      × ((i + 1) % n < n)
      × ((i + n - 1) % n < n)
      × ((k : Key) (p : Place) → handle_key_down k n p ≡ closes → k ≡ escape)
      × ((p : Place) → handle_key_down escape n p ≡ closes)
unfolding handle_key_down
handle_key_down-cycles n i h = (
  ground (arith, next_last n i, next_inner n i),
  ground (arith, before_first n i, before_inner n i),
  ground (arith, next_last n i, next_inner n i),
  ground (arith, before_first n i, before_inner n i),
  λ k p. closing_key k n p,
  λ p. refl,
)

-- An opened modal puts the focus on its first input, without inputs on its first focusable
-- element, without those on the panel, and never outside; closing it gives the focus back to where
-- it was.
pub opened-closed :
    (inputs : List ℕ) (n : ℕ) (f : Focus)
    → ((closed (opened inputs n f)).active ≡ f.active)
      × ((k : ℕ) → (opened inputs n f).active ≢ outside k)
      × ((i : ℕ) (is : List ℕ) → inputs ≡ i ∷ is → (opened inputs n f).active ≡ item i)
unfolding opened closed
opened-closed inputs n f = (refl, λ k. ground arith, λ i is e. ground arith)

-- After an error the boundary shows only its own retry button, and one click on it brings the
-- children back as they were before the error.
pub boundary_view-retry :
    {M : Type 0} (e : String) (retry : M) (children : View M)
    → (clicks (boundary_view (get_derived_state_from_error e) retry children) ≡ retry ∷ [])
      × (handle_retry (get_derived_state_from_error e) ≡ new_boundary)
      × (boundary_view (handle_retry (get_derived_state_from_error e)) retry children ≡ children)
unfolding boundary_view get_derived_state_from_error handle_retry new_boundary
boundary_view-retry e retry children = (refl, refl, refl)
