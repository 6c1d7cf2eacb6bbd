-- ===== src/System.antt =====
-- The web interface with the Node service behind it, joined by the development server's proxy: a
-- call of web-ui/src/lib/api goes through the proxy of web-ui/vite.config.ts to the listener of
-- node-service/src/index.js, and its reply settles the call.
pub mod Proxy
pub mod Wire
pub mod Answering
pub mod Listing
pub mod Creating
pub mod Settling
pub mod Deletions
pub mod Probing
pub mod Typing
pub mod Timeline
