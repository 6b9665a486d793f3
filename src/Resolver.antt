-- ===== src/Resolver.antt =====
-- golang-profiling/src/symbol_resolver.rs: from a pc to the text of a frame.
pub mod FuncTable
pub mod Names
pub mod Resolve
pub mod Legacy
pub mod Load
