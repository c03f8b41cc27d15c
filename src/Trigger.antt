-- ===== src/Trigger.antt =====
-- crates/roos-trigger: the HTTP server that accepts runs. axum's routing and extractors, the HMAC and
-- `hex` crates and `uuid` are parameters.
pub mod Http
pub mod Auth
pub mod Webhook
pub mod Server
