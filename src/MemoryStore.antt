-- ===== src/MemoryStore.antt =====
-- crates/roos-memory: the two backends of the `Memory` trait, and what both promise.
pub mod Spec
pub mod InMemory
pub mod SledStore
pub mod Agree
