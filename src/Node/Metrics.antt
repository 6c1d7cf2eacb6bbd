-- ===== src/Node/Metrics.antt =====
-- The counters and traces of the service, node-service/src/interfaces/metrics-handler.js.
pub mod Laws
use Prim.Native.Char.{code}
use Prim.Native.String
use asset_tracker.Prelude.{
  ℕ, zero, suc, ◌+◌, ◌-◌, ◌*◌, Bool, true, false, ◌||◌, ◌&&◌, Option, none, some, List, [], ◌∷◌,
  ◌++◌, String, length, leb, nat_beq, ltb, if◌then◌else◌,
}
use Prim.Native.Nat.{min, max}
use asset_tracker.Number.{Number, nan, whole, negative}
use asset_tracker.Api.Metrics.{RequestTrace}
use asset_tracker.Node.Value.{is_space}
use asset_tracker.Node.Reply.{Response, totals, detail}

-- The class `MetricsHandler`; the newest trace is the last.
pub record MetricsHandler : Type 0 where
  pub requests : ℕ
  pub errors : ℕ
  pub traces : List RequestTrace

unfoldable pub new_metrics : MetricsHandler
new_metrics = record { requests = 0; errors = 0; traces = [] }

unfoldable pub push_trace : RequestTrace → MetricsHandler → MetricsHandler
push_trace t m = record m { traces = m.traces ++ t ∷ [] }

unfoldable pub increment_request : MetricsHandler → MetricsHandler
increment_request m = record m { requests = suc m.requests }

unfoldable pub increment_error : MetricsHandler → MetricsHandler
increment_error m = record m { errors = suc m.errors }

-- An element of an array, or undefined.
abbrev pub element : {A : Type 0} → ℕ → List A → Option A
element i [] = none
element zero (x ∷ xs) = some x
element (suc i) (x ∷ xs) = element i xs

-- The loop from `i` on, for `k` rounds, over an array of length `n`.
abbrev pub collect : {A : Type 0} → List A → (n i k : ℕ) → List (Option A)
collect l n i zero = []
collect l n i (suc k) = element (n - 1 - i) l ∷ collect l n (suc i) k

unfoldable pub get_traces : ℕ → MetricsHandler → List (Option RequestTrace)
get_traces limit m =
    let n = length m.traces in
    if nat_beq n 0 then [] else collect m.traces n 0 (max 1 (min limit n))

abbrev is_digit : ℕ → Bool
is_digit c = leb b'0' c && leb c b'9'

-- `parseInt(raw, 10)`: white space, a sign and the digits up to the first other character.
abbrev digits_value : (acc : ℕ) → String → ℕ
digits_value acc String.[] = acc
digits_value acc (String.◌∷◌ c s) =
    let rest = digits_value (acc * 10 + (code c - b'0')) s in
    if is_digit (code c) then rest else acc

abbrev has_digit : String → Bool
has_digit String.[] = false
has_digit (String.◌∷◌ c s) = is_digit (code c)

abbrev unsigned : String → Number
unsigned s = if has_digit s then whole (digits_value 0 s) else nan

abbrev negated : Number → Number
negated (whole (suc n)) = negative n
negated a = a

abbrev signed : String → Number
signed String.[] = nan
signed (String.◌∷◌ c s) =
    if nat_beq (code c) b'-'
    then negated (unsigned s)
    else if nat_beq (code c) b'+'
    then unsigned s
    else unsigned (String.◌∷◌ c s)

unfoldable pub parse_int : String → Number
parse_int String.[] = nan
parse_int (String.◌∷◌ c s) =
    let rest = parse_int s in if is_space (code c) then rest else signed (String.◌∷◌ c s)

abbrev limit_of : Number → ℕ
limit_of (whole n) = if ltb n 1 then 1 else min n 10000
limit_of _ = 1

-- The limit of a query; `none` is null.
unfoldable pub parse_limit : Option String → ℕ
unfolding parse_int
parse_limit none = min 50 10000
parse_limit (some raw) = limit_of (parse_int raw)

unfoldable pub handle_requests : (limit : Option String) → MetricsHandler → Response
unfolding parse_limit get_traces
handle_requests limit m = record {
  status = 200;
  body = detail m.requests m.errors (get_traces (parse_limit limit) m);
}

unfoldable pub handle_metrics : MetricsHandler → Response
handle_metrics m = record { status = 200; body = totals m.requests m.errors }
