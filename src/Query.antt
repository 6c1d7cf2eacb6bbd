-- ===== src/Query.antt =====
-- What the query library hands to a component: the result of `useQuery`. The library itself is
-- not modelled; a result is a value that the components are given. `refetch` and the mutations'
-- calls are events of the components.
use asset_tracker.Prelude.{Bool, Option, String}

-- A thrown value: a `TypeError`, another object with its `message` if that is a text, or a value
-- that is no object.
pub data Thrown : Type 0 where
  type_error : (message : String) → Thrown
  object : (message : Option String) → Thrown
  primitive : Thrown

pub record Query (A : Type 0) : Type 0 where
  pub content : Option A
  pub is_loading : Bool
  pub is_fetching : Bool
  pub is_error : Bool
  pub error : Thrown
