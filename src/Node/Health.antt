-- ===== src/Node/Health.antt =====
-- The probes, node-service/src/interfaces/health-handler.js.
use asset_tracker.Prelude.{ℕ, Bool, false, none, some, ltb, if◌then◌else◌}
use asset_tracker.Node.Reply.{Response, health}

-- How the driver's `ping` settles, and after how many milliseconds.
pub data Ping : Type 0 where
  resolves rejects : (after : ℕ) → Ping
  pending : Ping

-- Whether `Promise.race` with the timer of 500 milliseconds resolves. Which of the two comes first
-- when they fall into the same millisecond is not determined; the timer does here.
abbrev pub wins : Ping → Bool
wins (resolves t) = ltb t 500
wins _ = false

unfoldable pub handle_live : Response
handle_live = record { status = 200; body = health "ok" none }

unfoldable pub handle_ready : Ping → Response
handle_ready p =
    if wins p
    then record { status = 200; body = health "ok" (some "connected") }
    else record { status = 503; body = health "degraded" (some "disconnected") }

unfoldable pub handle_health : Ping → Response
unfolding handle_ready
handle_health p = handle_ready p
