-- ===== src/Core.antt =====
-- crates/roos-core: the data that agents, tools, memories and providers exchange, and their traits.
-- `serde_json::Value` is the parameter `J`, a `DateTime<Utc>` the parameter `T`, and the world that
-- a trait's methods read and change the parameter `W`.
pub mod Types
pub mod Error
pub mod Agent
pub mod Memory
pub mod Provider
pub mod Tool
pub mod Config
pub mod Bus
pub mod Supervisor
