-- ===== src/Examples.antt =====
-- Runs on small inputs, and each theorem at an input where its hypotheses hold.
pub mod Tables
pub mod Parsing
pub mod Kernel
pub mod Profiles
pub mod Collected
pub mod Loading
pub mod Commands
pub mod Sessions
pub mod Runtime
pub mod Races
pub mod GoBinary
pub mod Ends
pub mod Runs
pub mod Units
