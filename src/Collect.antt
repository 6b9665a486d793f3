-- ===== src/Collect.antt =====
-- golang-profiling/src/main.rs: reading the counts of the probe, and turning them into stacks; and
-- golang-profiling/src/flamegraph_export.rs: the folded lines.
pub mod Counts
pub mod Stacks
pub mod Perf
