-- ===== src/Runtime.antt =====
-- golang_parser.rs: what `GoRuntimeParser` finds out about the Go runtime of a process.
pub mod Version
pub mod Process
