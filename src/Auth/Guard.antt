-- ===== src/Auth/Guard.antt =====
-- The route guard, web-ui/src/routes/__root.tsx. What the browser gives is a parameter: `atob`,
-- and `JSON.parse` with the reading of `payload.exp` as a number; `none` where they throw.
use Prim.Native.Char.{code}
use Prim.Native.String
use asset_tracker.Prelude.{
  ℕ, Bool, true, not, ◌&&◌, Option, none, some, List, [], ◌∷◌, String, ◌==◌, truthy, if◌then◌else◌,
  nat_beq,
}
use asset_tracker.Number.{Number, whole, lt, times_1000}
use asset_tracker.Storage.{Storage, get_item, remove_item}

-- A parsed payload: null, or a value with its field `exp` as a number, NaN where it has none.
pub data Payload : Type 0 where
  null : Payload
  with_exp : Number → Payload

pub record Platform : Type 0 where
  pub atob : String → Option String
  pub json_parse : String → Option Payload

abbrev push_head : String → List String → List String
push_head c [] = c ∷ []
push_head c (w ∷ ws) = String.◌++◌ c w ∷ ws

-- `token.split(".")`
unfoldable pub split_dot : String → List String
split_dot String.[] = "" ∷ []
split_dot (String.◌∷◌ c s) =
    let rest = split_dot s in
    if nat_beq (code c) b'.' then "" ∷ rest else push_head (String.◌∷◌ c String.[]) rest

-- `payload.exp * 1000 < Date.now()`; reading a field of null throws.
abbrev pub payload_expired : ℕ → Option Payload → Bool
payload_expired now none = true
payload_expired now (some null) = true
payload_expired now (some (with_exp exp)) = lt (times_1000 exp) (whole now)

abbrev pub text_expired : Platform → ℕ → Option String → Bool
text_expired p now none = true
text_expired p now (some text) = payload_expired now (p.json_parse text)

abbrev pub parts_expired : Platform → ℕ → List String → Bool
parts_expired p now (header ∷ payload ∷ signature ∷ []) =
    if truthy payload then text_expired p now (p.atob payload) else true
parts_expired p now _ = true

unfoldable pub is_token_expired : Platform → ℕ → String → Bool
is_token_expired p now token = parts_expired p now (split_dot token)

-- How `checkAuth` ends, with the storage as it leaves it.
pub data Verdict : Type 0 where
  threw : Verdict
  passes : Storage → Verdict
  redirects : (to : String) → Storage → Verdict

abbrev expire : Storage → Verdict
expire storage = elim (remove_item "auth_token" storage) [
  | none ↦ threw
  | some s ↦ redirects "/login" s
]

abbrev judge : Platform → ℕ → String → Storage → Option String → Verdict
judge p now pathname storage none =
    if not (pathname == "/login") then redirects "/login" storage else passes storage
judge p now pathname storage (some token) =
    if truthy token && is_token_expired p now token
    then expire storage
    else if not (truthy token) && not (pathname == "/login")
    then redirects "/login" storage
    else passes storage

-- `now` is `Date.now()`.
unfoldable pub check_auth : Platform → ℕ → String → Storage → Verdict
unfolding get_item remove_item
check_auth p now pathname storage = elim (get_item "auth_token" storage) [
  | none ↦ threw
  | some token ↦ judge p now pathname storage token
]
