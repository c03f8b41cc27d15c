-- ===== src/Tools.antt =====
-- crates/roos-tools: the built-in tools. Reading an input from JSON is a parameter of each; their
-- descriptions and schemas, which no code here computes with, are left out.
pub mod Input
pub mod Shell
pub mod Fs
pub mod Http
pub mod Web
