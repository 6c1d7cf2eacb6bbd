-- ===== src/Shared.antt =====
-- The components of web-ui/src/components/shared: LoadingSkeleton.tsx and EmptyState.tsx here,
-- Modal.tsx and ErrorBoundary.tsx below.
pub mod Modal
pub mod Boundary
pub mod Laws
use asset_tracker.Prelude.{
  ℕ, Bool, true, false, ◌++◌, Option, none, some, List, [], ◌∷◌, String, ◌==◌, or_else, truthy,
  replicate, if◌then◌else◌,
}
use asset_tracker.View.{Element, View, text, button, skeleton, when}

pub data Variant : Type 0 where
  rows grid : Variant

-- The props are optional: their defaults stand where they are left out.
unfoldable pub loading_skeleton :
    {M : Type 0} → (rows : Option ℕ) → Option Variant → (count : Option ℕ) → View M
loading_skeleton n variant count = elim (or_else variant Variant.rows) [
  | Variant.grid ↦ replicate (or_else count 1) skeleton
  | Variant.rows ↦ replicate (or_else n 3) skeleton
]

abbrev description_view : {M : Type 0} → Option String → View M
description_view none = []
description_view (some d) = when (truthy d) (text d ∷ [])

abbrev action_view : {M : Type 0} → Option String → Option M → View M
action_view (some l) (some m) = when (truthy l) (button l false m ∷ [])
action_view none _ = []
action_view (some l) none = []

unfoldable pub empty_state :
    {M : Type 0}
    → (title : String) → (description action_label : Option String) → (on_action : Option M)
    → View M
empty_state title description action_label on_action =
    text title ∷ (description_view description ++ action_view action_label on_action)
