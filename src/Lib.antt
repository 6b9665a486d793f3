-- ===== src/Lib.antt =====
-- golang-profiling: a sampling profiler for Go programs, in Rust. Two eBPF programs in the kernel count
-- stacks by process (golang-profiling-ebpf/src/main.rs). The user-space program reads these counts
-- (golang-profiling/src/main.rs), turns the instruction pointers of each stack into names and lines
-- (golang-profiling/src/symbol_resolver.rs, with elfgopclntab.rs for the table that Go binaries carry
-- and dwarf_parser.rs for debug information), and writes folded stacks
-- (golang-profiling/src/flamegraph_export.rs). golang-profiling-common/src/lib.rs holds the shared types
-- and a tree for flame graphs.
--
-- The files, and the code that each is about:
--   Base             notation, lists, bytes, bits, machine words, text and maps shared by the rest. `Run`
--                    is the result of code that may panic: `done`, `panic`, or `stuck` for a loop out of
--                    fuel.
--   Pclntab/Header, Read, Parse   elfgopclntab.rs: the packed headers, `get_int32`, `get_string` and
--                    `Gopclntab::new`; Parse/Branches and Parse/Valid are about its outcomes.
--   Pclntab/Table    `get_func_map_entry` and `get_func`; below it an encoder of both tables.
--   Pclntab/Pcvalue  `Pcval` and `map_pcval`; below it an encoder of pc-value tables.
--   Pclntab/Symbolize   `Gopclntab::symbolize`, with its binary search.
--   Pclntab/Locate   `search_go_pclntab`.
--   Probe/Maps, Program   the programs `golang_profile` and `sched_switch`, as functions on the contents of
--                    the maps COUNTS, TARGET_PID and PROCESS_TIMESTAMPS; below Program the counts of each
--                    kind of sample and the filter over any sequence of events.
--   Probe/Races      the two programs on several processors at once, with each read and each write of the
--                    maps that they change as a step of its own.
--   ObjectFile       what the crate `object` answers about an ELF file.
--   Resolver/FuncTable, Names, Resolve   symbol_resolver.rs: `find_function_by_pc`, the names, and
--                    `resolve_pc` with the order of its sources.
--   Resolver/Legacy  `parse_pclntab_legacy`, the older reader of the Go table.
--   Resolver/Load    `SymbolResolver::new`: the kernel's symbols, the base address, the Go table by the
--                    newer parser or the older one, and the symbols of the file.
--   Runtime/Version, Process   golang_parser.rs: the version of Go, and `parse_process`; Process/Mappings
--                    prints the text of the mappings that it reads.
--   Dwarf            dwarf_parser.rs: `parse_line_program`, `parse_function_die` and the look-ups;
--                    Dwarf/Units has the loops over units and entries.
--   Flame            `FlameNode` of lib.rs: `add_sample` and `to_folded`.
--   Collect/Counts, Stacks   main.rs: the body of `read_aggregated_counts`, the combination of the stacks
--                    and the final statistics; `export_folded_stacks`.
--   Collect/Perf     flamegraph_export.rs: `export_perf_script`.
--   Enhanced         `EnhancedFuncInfo` of lib.rs.
--   Command          main.rs: the options, the process to profile, and the arguments of the script.
--   Session          main.rs: the two programs and the loop of `read_aggregated_counts` side by side, as a
--                    run over any list of events, from the set-up of the target on.
--   Report           main.rs: the files that the end of `main` writes and removes, and the call of `perl`.
--   Main             main.rs: `main` as a whole, from the options to the files.
--   Examples         runs on small inputs, each theorem at an input where its hypotheses hold, and in
--                    Examples/Units the unit tests of symbol_resolver.rs and golang_parser.rs.
--
-- Conventions. Numbers are natural numbers; sums and products of machine words keep the wrap-around of a
-- release build (`add64`, `mul64`, `add32` and so on), and an `i32` is its bit pattern. `usize` has 64
-- bits. A string is the list of its bytes. A hash map is an association list in the order of iteration,
-- which the library leaves open; the kernel's hash maps are an interface with the laws that the kernel
-- documents, by which an insertion of a new key may fail in a full map. Casts of bytes to packed structs
-- are reads of little-endian fields; the code checks the length before each of them. A `Vec` has fewer
-- than 2^63 elements.
--
-- Fuel. A loop out of fuel gives `stuck`; the modules called Ends are about this, and those called Safe about
-- panics too. The binary searches
-- get one unit more than the number of rows, since each round shortens the range; the scan for the table
-- gets the number of bytes, since each round goes on by 8 at least; the pc-value loop gets one unit more
-- than the number of bytes left, since each step uses up a byte.
--
-- Third parties. An object file is the sections and symbols that `object` gives for it, a unit of debug
-- information is the rows and attributes that gimli decodes, a mapping is what procfs reads, and the
-- output of `pgrep` is text; each is an argument. The files under /proc are their contents. In Report the
-- files are a function from paths to contents; whether one can be written or removed, and what `perl`
-- answers, is a record that a theorem about `main` takes, and so is in Main whether the programs can be
-- loaded and attached; the maps and the programs that `main` unwraps by name are in the object that is built
-- in, and no lock is poisoned. A file that cannot be written is taken to stay as it is, and one that is being
-- written when a name's look-up panics is not followed further.
--
-- Interleavings. In Session an event is a run of one of the programs or a step of the reader: waking up, the
-- next key of its iterator, an error of the iterator, and the end of a round. A run is a list of events, in
-- any order; an event that cannot happen, such as a step of a reader that sleeps, changes nothing. Which
-- keys the iterator of the kernel's map gives while the map changes is left open. In Probe/Program, Session
-- and Main a run of a program, from its first read of a map to its last insertion, is one step. In the
-- kernel the programs run on all processors at once, and two runs can read the same count or timestamp
-- before either writes: then an update is lost, or a time is added twice. Probe/Races has such runs, over
-- any list of turns of the processors, and Races/Alone relates them to the runs as one step; Session is not
-- built on Races, so what is said about a session holds where the runs do not overlap. `main` sets
-- the target behind `parse_process` and ahead of the resolver, and attaches the programs
-- behind it; each of the two can fail.
--
-- Not modelled: reading files and processes, the object and DWARF decoders, the calls that load and attach
-- the programs, the parsing of the command line, log lines, the Perl script, the build scripts, and the
-- kubectl plug-in, a separate program in Go; further
-- `resolve_enhanced_pc`, which is compiled only with a feature that the crate does not declare, which
-- nothing calls, and which would not type-check.
pub mod Base
pub mod ObjectFile
pub mod Pclntab
pub mod Probe
pub mod Resolver
pub mod Runtime
pub mod Flame
pub mod Dwarf
pub mod Collect
pub mod Enhanced
pub mod Command
pub mod Session
pub mod Report
pub mod Main
pub mod Examples
