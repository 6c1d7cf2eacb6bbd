-- ===== src/Node.antt =====
-- The Node service for events, node-service/src: its domain, its use cases, the adapters for
-- MongoDB and Kafka, and the HTTP server.
pub mod Value
pub mod Uuid
pub mod Event
pub mod Repository
pub mod UseCases
pub mod Reply
pub mod Handler
pub mod Metrics
pub mod Health
pub mod Server
pub mod Logging
pub mod Consumer
pub mod Lifecycle
pub mod Gateway
