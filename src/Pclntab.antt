-- ===== src/Pclntab.antt =====
-- golang-profiling/src/elfgopclntab.rs: the parser of the Go function table `.gopclntab`.
pub mod Read
pub mod Header
pub mod Parse
pub mod Table
pub mod Pcvalue
pub mod Symbolize
pub mod Locate
