-- ===== src/Api/Http.antt =====
-- Requests, replies and settled promises, as the files of web-ui/src/lib/api use them. A body
-- that is sent is the list of the fields that `JSON.stringify` writes; a body that comes back
-- is of a type `B`, which the callers cast without a test.
use asset_tracker.Prelude.{
  ◌≡◌, refl, ◌⊎◌, inl, inr, none, some, ℕ, Bool, ◌&&◌, Option, List, String, leb,
}

pub data Method : Type 0 where
  get post put delete : Method

abbrev pub Json : Type 0
Json = List (String × String)

pub record Request : Type 0 where
  pub method : Method
  pub url : String
  pub headers : List (String × String)
  pub body : Option Json

-- `network_failure`: the promise of `fetch` rejects. In a response the body is `none` where
-- `response.json()` rejects.
pub data Reply (B : Type 0) : Type 0 where
  network_failure : Reply B
  response : (status : ℕ) → (body : Option B) → Reply B

abbrev pub Fetch : Type 0 → Type 0
Fetch B = Request → Reply B

-- What a promise rejects with: the error of `fetch` or of `response.json()`, the thrown
-- `{ status, body }`, or a `TypeError` that the client makes.
pub data Failure (B : Type 0) : Type 0 where
  fetch_failed bad_json : Failure B
  api_error : (status : ℕ) → (body : B) → Failure B
  type_error : (message : String) → Failure B

pub data Settled (A B : Type 0) : Type 0 where
  resolved : A → Settled A B
  rejected : Failure B → Settled A B

pub data WindowEvent : Type 0 where
  auth_logout : WindowEvent

-- One call: the request it sends, the events it dispatches on `window`, and how it settles.
pub record Call (A B : Type 0) : Type 0 where
  pub sent : Request
  pub dispatched : List WindowEvent
  pub settled : Settled A B

-- response.ok
abbrev pub is_ok : ℕ → Bool
is_ok status = leb 200 status && leb status 299

-- A reply has a body that can be read, or it has none.
pub Reply-cases :
    {B : Type 0} (r : Reply B)
    → ((r ≡ network_failure) ⊎ ((k : ℕ) × (r ≡ response k none)))
      ⊎ ((k : ℕ) × (b : B) × (r ≡ response k (some b)))
Reply-cases network_failure = inl (inl refl)
Reply-cases (response k none) = inl (inr (k, refl))
Reply-cases (response k (some b)) = inr (k, b, refl)
