-- ===== src/Cli.antt =====
-- crates/roos-cli: the commands.
pub mod Run
pub mod Serve
pub mod New
pub mod ListAgents
pub mod Main
