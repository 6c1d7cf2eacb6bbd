-- ===== src/Shared/Boundary.antt =====
-- The error boundary, web-ui/src/components/shared/ErrorBoundary.tsx; an error is its message.
-- Logging is left out.
use asset_tracker.Prelude.{
  Bool, true, false, Option, none, some, [], ◌∷◌, String, truthy, if◌then◌else◌,
}
use asset_tracker.View.{View, text, button}

pub record ErrorBoundary : Type 0 where
  pub has_error : Bool
  pub error : Option String

unfoldable pub new_boundary : ErrorBoundary
new_boundary = record { has_error = false; error = none }

unfoldable pub get_derived_state_from_error : String → ErrorBoundary
get_derived_state_from_error e = record { has_error = true; error = some e }

unfoldable pub handle_retry : ErrorBoundary → ErrorBoundary
handle_retry s = record s { has_error = false; error = none }

abbrev message : Option String → String
message none = "An unexpected error occurred."
message (some m) = if truthy m then m else "An unexpected error occurred."

unfoldable pub boundary_view : {M : Type 0} → ErrorBoundary → (retry : M) → View M → View M
boundary_view s retry children =
    if s.has_error
    then text "Something went wrong" ∷ text (message s.error) ∷ button "Try Again" false retry ∷ []
    else children
