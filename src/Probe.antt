-- ===== src/Probe.antt =====
-- golang-profiling-ebpf/src/main.rs: the two eBPF programs and the maps that they update, with the
-- key type of golang-profiling-common/src/lib.rs.
pub mod Maps
pub mod Program
pub mod Races
