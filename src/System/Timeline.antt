-- ===== src/System/Timeline.antt =====
-- The timeline of a device after an event was added to it: the hooks `useCreateEvent` and `useEvents`
-- of web-ui/src/hooks/use-events.ts over the query library's cache, the clients and the service.
use asset_tracker.Prelude.{List}
use asset_tracker.Hooks.Calls.{events}
use asset_tracker.Node.Value.{Value}
use asset_tracker.Node.Event.{Event}
use asset_tracker.Node.Reply.{events as listing}
use asset_tracker.Node.Server.{Server}
use asset_tracker.System.Wire.{Wire}
