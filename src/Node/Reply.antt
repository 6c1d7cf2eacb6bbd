-- ===== src/Node/Reply.antt =====
-- What the service answers. Every body is JSON, with that content type, and the texts of the
-- metrics and health replies end in a line end; neither is kept here.
use asset_tracker.Prelude.{ℕ, Option, List, String}
use asset_tracker.Api.Metrics.{RequestTrace}
use asset_tracker.Node.Event.{Event}

pub data Body : Type 0 where
  no_body : Body
  error : (message : String) → Body
  event : Event → Body
  events : List Event → Body
  health : (status : String) → (database : Option String) → Body
  totals : (requests errors : ℕ) → Body
  -- a trace that is not there is written as an empty object
  detail : (requests errors : ℕ) → (recent : List (Option RequestTrace)) → Body

pub record Response : Type 0 where
  pub status : ℕ
  pub body : Body
