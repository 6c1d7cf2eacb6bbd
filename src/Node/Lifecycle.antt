-- ===== src/Node/Lifecycle.antt =====
-- The start and the shutdown of the service, `main` of node-service/src/index.js. Which calls of
-- the libraries resolve is an argument; the log is left out.
pub mod Laws
use asset_tracker.Prelude.{
  ℕ, Bool, true, false, Option, none, some, String, truthy, or_else, nat_beq, leb, not,
  if◌then◌else◌,
}
use asset_tracker.Number.{Number, nan, whole}
use asset_tracker.Node.Metrics.{parse_int}
use asset_tracker.Node.Consumer.{Consumer, Attempt, new_consumer, start, stop}

-- The variables of the environment that `main` reads; `none` is undefined.
pub record Environment : Type 0 where
  pub port : Option String
  pub mongo_uri : Option String
  pub mongo_db : Option String
  pub kafka_broker : Option String
  pub kafka_topic : Option String
  pub kafka_consumer_group : Option String

-- `variable || fallback`
abbrev pub variable : (fallback : String) → Option String → String
variable fallback none = fallback
variable fallback (some s) = if truthy s then s else fallback

abbrev port_of : Number → Number
port_of nan = whole 3000
port_of (whole n) = if nat_beq n 0 then whole 3000 else whole n
port_of n = n

pub record Configuration : Type 0 where
  pub port : Number
  pub mongo_uri : String
  pub mongo_db : String
  pub kafka_broker : String
  pub kafka_topic : String
  pub kafka_consumer_group : String

-- The constants above `main`; `parseInt(undefined, 10)` is NaN.
unfoldable pub configure : Environment → Configuration
unfolding parse_int
configure e = record {
  port = port_of (elim e.port [ none ↦ nan | some s ↦ parse_int s ]);
  mongo_uri = variable "mongodb://localhost:27017" e.mongo_uri;
  mongo_db = variable "asset_tracker" e.mongo_db;
  kafka_broker = variable "" e.kafka_broker;
  kafka_topic = variable "device-events" e.kafka_topic;
  kafka_consumer_group = variable "asset-tracker-node" e.kafka_consumer_group;
}

-- How the libraries behave at the start.
pub record World : Type 0 where
  -- `new MongoClient`, `connect`, and `db` with `collection`
  pub makes_client : Bool
  pub mongo_connects : Bool
  pub opens_collection : Bool
  pub kafka_imports : Bool
  pub makes_kafka : Bool
  pub attempt : Attempt

pub record Process : Type 0 where
  pub is_listening : Bool
  pub mongo_is_open : Bool
  pub kafka_consumer : Option Consumer

pub data Started : Type 0 where
  exits : (code : ℕ) → Started
  runs : Process → Started

-- The part of `main` on Kafka. `start` catches what its calls throw.
unfoldable pub initialize_kafka : Configuration → World → Option Consumer
unfolding start new_consumer
initialize_kafka c w =
    if truthy c.kafka_broker
    then if w.kafka_imports
      then if w.makes_kafka then some (start w.attempt new_consumer) else none
      else none
    else none

-- `server.listen` throws for a port that is no number from 0 to 65535.
abbrev pub is_port : Number → Bool
is_port (whole n) = leb n 65535
is_port _ = false

-- `main`, with the handler of its rejection.
unfoldable pub main : Environment → World → Started
unfolding configure initialize_kafka
main e w =
    let c = configure e in
    if not w.makes_client
    then exits 1
    else if not w.mongo_connects
    then exits 1
    else if not w.opens_collection
    then exits 1
    else if not (is_port c.port)
    then exits 1
    else runs (record {
      is_listening = true;
      mongo_is_open = true;
      kafka_consumer = initialize_kafka c w;
    })

abbrev stopped : Bool → Option Consumer → Option Consumer
stopped disconnects none = none
stopped disconnects (some c) = some (stop disconnects c)

-- `shutdown`, on SIGTERM and SIGINT. Closing the database's client is the last step, and its
-- rejection leaves it open.
unfoldable pub shutdown : (disconnects mongo_closes : Bool) → Process → Process
unfolding stop
shutdown disconnects mongo_closes p = record {
  is_listening = false;
  mongo_is_open = if mongo_closes then false else p.mongo_is_open;
  kafka_consumer = stopped disconnects p.kafka_consumer;
}
