-- ===== src/Providers.antt =====
-- crates/roos-providers: the model providers.
pub mod Http
pub mod OpenAi
pub mod Anthropic
pub mod Cohere
