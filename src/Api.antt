-- ===== src/Api.antt =====
-- The clients of the two services (web-ui/src/lib/api): the requests they send and how they
-- settle. `fetch` is a parameter: what comes back for each request.
pub mod Http
pub mod Client
pub mod Auth
pub mod Devices
pub mod Events
pub mod Health
pub mod Metrics
pub mod Laws
