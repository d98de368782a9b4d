-- ===== src/Lib.antt =====
-- Tactus runs plugins as child processes, supervises them, and keeps a record of each run. This
-- library models the core of that runtime, the crate in tactus-runtime/.
--
-- How the parts interact. The supervisor (tactus-runtime/src/process.rs) starts a plugin with limits
-- from tactus-runtime/src/limits.rs, reads the frames of tactus-runtime/src/protocol.rs from its
-- standard output, passes them to a callback, and ends with one `ProcessOutcome`. The outcome is
-- classified and checked by tactus-runtime/src/outcome.rs. The journal of
-- tactus-runtime/src/journal.rs records redacted events of the run and publishes a summary with the
-- outcome; tactus-runtime/src/journal_reader.rs reads both back, and tactus-runtime/src/runs.rs
-- lists them, pages through them and deletes old ones. A viewer may follow the output of a provider
-- live, from the bounded buffer of tactus-runtime/src/watch.rs. The command line
-- (tactus-runtime/src/cli.rs) runs batches of scripts; the daemon of tactus-runtime/src/daemon.rs
-- watches them, and may repair a script and let it run again. The providers that plugins reach are
-- adapted by tactus-runtime/src/adapters.rs, which reduces their native output to one result and
-- compares snapshots of a workspace, also across the processes that begin and end an observation. A
-- person answers the questions of a planner in the durable sessions of tactus-runtime/src/session.rs.
-- The configuration of tactus-runtime/src/workspace.rs names the plugins with their commands, and
-- tactus-runtime/src/skills.rs distributes the bundled skills into a workspace.
--
-- Which file models which part:
--   Common      lists, texts, results and tests that the parts share; `Common.Utf8` has the cutting
--               of a text at a character boundary (process.rs, journal.rs)
--   Json        the values of serde_json, as far as the program matches on them
--   Protocol    protocol.rs: `PluginRequest`, `PluginFrame`, `FrameSequence` (`new`, `accept`,
--               `finish`)
--   Process     process.rs: the facts of an outcome. `Process.Supervisor` is the loop of
--               `ProcessSupervisor::invoke`, one `round` for each turn of the `while`, whose readings
--               (`Tick`) are arguments; `Process.Observer` the callback's queue and counter;
--               `Process.Invocation` the checks before the loop (`prepare`), what follows it
--               (`settle`, `conclude`) and the whole `invoke`; `Process.Readers` the two readers of
--               stderr; `Process.Command` the outcome of a command that is no plugin
--   Outcome     outcome.rs: `classify_outcome`, `validate_outcome_consistency` and
--               `OutcomeUnknownDiagnostic::from_outcome`
--   Limits      limits.rs: `RuntimeLimits::validate`; `Limits.Options` is
--               `validate_provider_options`
--   Journal     journal.rs: `Journal.Redaction` is `redact_diagnostic_value` and the tables of keys
--               and identifiers, `Journal.Summary` is `diagnostic_summary`, `Journal.Writer` is
--               `RunJournal` (`create`, `record_with_presentation`, `record_transition`, `finish`,
--               `finish_degraded`)
--   JournalReader  journal_reader.rs: `read_bounded_line`, `EventReader::next`, `decode_summary`
--   Runs        runs.rs: `inspect_run`, `scan_events` and the filters; `Runs.Paging` is
--               `read_event_page`; `Runs.Maintenance` is `maintenance_plan`, `archive` and `gc`
--   Watch       watch.rs: `LiveBuffer::push` and `LiveBuffer::page`, and the tests of a packet
--   Daemon      daemon.rs: `DaemonConfig`, `EventLog` and `parse_decision`; `Daemon.Watching` is the
--               thread of `Daemon::monitor`; `Daemon.Repair` is `repair_after_failure` with
--               `apply_repair` and `bounded_source`
--   Cli         cli.rs: `Cli.Batch` is `execute_script_batch` with its inner loop (`run_attempts`);
--               `Cli.Batch.Reports` is `script_batch_outcome` and `script_batch_exit_code`
--   Session     session.rs: the documents and identifiers; `Session.Validation` is
--               `validate_session` and `validate_brief`, `Session.Transcript` is
--               `append_transcript` on the bytes of the file, `Session.Answers` is `answer`,
--               `Session.Listing` is `list` with its bounded heap
--   Adapters    adapters.rs: `Adapters.Results` is `ProviderResultAccumulator` up to
--               `finalize_provider_result`, `Adapters.Antigravity` is `AntigravityStream::observe`,
--               `Adapters.Lines` is `read_lf_lines`, `Adapters.Native` is
--               `observe_provider_output`, `Adapters.Snapshots` is
--               `snapshot_delta`, `Adapters.Observations` is `observe_end` as a machine with one
--               operation on the shared files at each step
--   Skills      skills.rs: `Skills.Reconcile` is `reconcile`, `Skills.Candidates` is
--               `write_candidate`, `Skills.Files` has `read_plain` and `atomic_write`
--   Workspace   workspace.rs: `RuntimeConfig` with its `validate`, and `Workspace::resolve_plugin`
--
-- How state and surroundings are modelled. Mutable variables are fields of a record that each step
-- returns anew. What the program learns from outside, the clock, the operating system, other threads
-- and files, is an argument of the step that asks for it, so a theorem for all arguments holds for
-- all interleavings and failures. A Rust string is the list of its bytes. Numbers are natural
-- numbers; a `u64` or `usize` sum that the source saturates is cut off at its maximum, and a counter
-- that counts things read or written one by one is not reduced. JSON numbers, the encoding and
-- decoding of serde_json, SHA-256 and decimal text are parameters; a theorem that relies on a
-- property of them (a hexadecimal SHA-256 has 64 digits) says so in a hypothesis.
--
-- Bounds and fuel. No definition runs on fuel: the loops recur on the list of readings, on the list
-- of buffers that a stream gives, or on the value itself. A list of rounds that ends before the
-- supervision loop does gives `none`, and the theorems on how the loop ends say which rounds
-- suffice. The same holds of the attempts of a script: there are enough when they are one more than
-- the reruns that the daemon's configuration allows. A list of frames read that ends is the end of
-- the file.
--
-- Not modelled: the strict JSON decoder of protocol.rs and its scan of numbers; `wait_command`,
-- `read_stdout` and the signals in process.rs; in journal.rs the creation of a unique directory and
-- its safety checks, `Presentation::new` and the projection of failure details; in runs.rs the
-- parsing of time expressions and the listing of directories; in daemon.rs the prompts and the tail
-- of the diagnostics; in cli.rs the parsing of arguments and the other commands; in session.rs the
-- checks of files and of the lock; in adapters.rs the requests, the command lines of the providers,
-- the scan of a workspace, the beginning, the expiry and the forgetting of an observation, and the
-- counters of native events; in skills.rs the lock, the bundled texts, and the moment between the last
-- comparison of a file and its renaming, which are one step here; in workspace.rs the discovery, the
-- initialization and the sources. A line that the journal writes is there as a whole or not at all: a
-- write that stops half-way is represented in the transcript of a session only. Of the other files of the runtime, the server around the live buffer, the
-- search for executables and the studio are not modelled. clef-sdk/ and segno-flow/ are written in
-- another language.
pub mod Common
pub mod Json
pub mod Protocol
pub mod Process
pub mod Outcome
pub mod Limits
pub mod Journal
pub mod JournalReader
pub mod Runs
pub mod Watch
pub mod Daemon
pub mod Cli
pub mod Adapters
pub mod Session
pub mod Skills
pub mod Workspace
