-- ===== src/Node/Lifecycle/Laws.antt =====
-- What the start and the shutdown guarantee, whatever Kafka does.
use asset_tracker.Prelude.{ℕ, ◌≤◌, ◌≡◌, true, false, Option, none, some, List, [], All}
use asset_tracker.Number.{Number, whole}
use asset_tracker.Node.Consumer.{Consumer, ClientState, disconnected}
use asset_tracker.Node.Lifecycle.{
  Environment, configure, World, Process, Started, exits, runs, shutdown,
}

-- The clients of Kafka that the process made.
abbrev pub clients_of : Option Consumer → List ClientState
clients_of none = []
clients_of (some c) = c.clients

-- A process that is gone: it takes no requests, and holds neither database nor Kafka.
pub record IsReleased (p : Process) : Type 0 where
  pub not_listening : p.is_listening ≡ false
  pub mongo_closed : p.mongo_is_open ≡ false
  pub clients_left : All (λ k. k ≡ disconnected) (clients_of p.kafka_consumer)

-- What the start needs: a database that is reached and opened, and a port that exists.
pub record CanServe (e : Environment) (w : World) : Type 0 where
  pub has_client : w.makes_client ≡ true
  pub connected : w.mongo_connects ≡ true
  pub has_collection : w.opens_collection ≡ true
  pub port : ℕ
  pub port_set : (configure e).port ≡ whole port
  pub port_exists : port ≤ 65535

-- How the service starts and ends.
pub data Lives (e : Environment) (w : World) : Started → Type 0 where
  dies : ¬ CanServe e w → Lives e w (exits 1)
  serves :
      (p : Process)
      → CanServe e w
      → p.is_listening ≡ true
      → p.mongo_is_open ≡ true
      → IsReleased (shutdown true true p)
      → Lives e w (runs p)
