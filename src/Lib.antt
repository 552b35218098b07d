-- ===== src/Lib.antt =====
-- The control core of Clash Nyanpasu Service: the part that takes commands for a proxy core, runs
-- them one at a time to a terminal state, and judges whether the core is healthy.
--
-- The program and the files that model it:
--
-- * Failure (crates/nyanpasu-core-metadata/src/error_kind.rs, crates/nyanpasu-core-manager/src/error.rs):
--   the kinds of failure with their wire spelling, and `Error` with `Error::kind`. Failure/Wire and
--   Failure/Classify are about them.
-- * Health (crates/nyanpasu-core-manager/src/health/mod.rs): `HealthPolicy`, `HealthTracker::observe`
--   as the function `observe` on the tracker's state, and `cap_detail`. Health/Tracker has the
--   invariant, Health/Streaks the runs of observations, Health/Detail the cap.
-- * Control (crates/nyanpasu-core-manager/src/control/mod.rs and executor.rs):
--   OperationId is the id with `Display` and `FromStr`; Digest is `payload_digest`; Command holds the
--   commands, outcomes and errors, and the identity that is digested; Registry is the table of
--   operations behind its lock, with `admit`, `set` and `get`; Channel is the interface of the bounded
--   queue; Plane is `CoreControl` together with the task of the executor; Execute is what the executor
--   runs for a command, `execute`, `reconcile` and `materialize`, over a manager and a file system.
-- * Manager/Quarantine (crates/nyanpasu-core-manager/src/manager/quarantine.rs): the epochs whose
--   process may still live. `record_quarantine`, `quarantine_error` and `recover_quarantine` as the
--   functions of these names; Records, Rounds, Recovery and Unproven are about them.
-- * Manager/Status (crates/nyanpasu-core-manager/src/state.rs and manager/publish.rs): the published
--   status, `apply_epoch_status` and `default_health_for_state`; Updates is about them.
-- * Manager/Effects (crates/nyanpasu-core-manager/src/runtime/mod.rs, config, dns.rs): what a transaction
--   asks of the host, as the record `Host`: one question per call, and the launch and the stop of a core
--   with what the manager relies on as laws (a launch starts at most the core that it gives, and none
--   where it fails; a stop that is confirmed leaves that core dead). Manager/Fallible is `?` on results.
-- * Manager/Session (crates/nyanpasu-core-manager/src/manager/mod.rs, publish.rs, quarantine.rs): `Ctrl`
--   with the published status, and the steps that the transactions share, `publish`, `install`,
--   `retire_current`, `discard_stale`, `latch_quarantine` and `spawn_replacement`. Session/Quiet,
--   Safety, Latching, Retiring and Replacing follow the cores through them.
-- * Manager/Prepare (manager/switching.rs, apply.rs): the prepare steps, `resolve_features` and
--   `validate_launchable`; Manager/Launch: `start_prepared` and `start_locked`; Manager/Stopping: `stop`
--   and `shutdown`; Manager/InPlace: `reconcile_in_place` and `patch_and_verify`; Manager/Apply:
--   `apply_locked` with, in Apply/Compensate, `restart_with_compensation` and
--   `switch_with_compensation`; Manager/Switching: `hard_switch` and, in Switching/Graceful,
--   `graceful_switch`; Manager/Lifecycle: the public methods, `start`, `switch`, `restart`,
--   `apply_config` and `reconcile`; Lifecycle/Runs has runs of these
--   with `stop` and `shutdown`.
-- * Manager/Dns (crates/nyanpasu-core-manager/src/manager/dns_sync.rs): `dns_converge`, `dns_restore`
--   and `persist_dns_record`. Manager/Sample is a host to run the manager on.
-- * Instance (crates/nyanpasu-core-manager/src/instance.rs, health/driver.rs): one epoch of a core.
--   Instance/Logs is the tail of its log frames, Instance/Monitor the arms of `monitor_loop` with
--   `publish_terminal`, Monitor/Apply `ProbeReconcile::apply`, Monitor/Moves the steps of the monitor and
--   of the threads beside it, Monitor/Inv with its children, Runs and Outcomes what holds in every run;
--   Instance/Stopping is `stop_and_confirm_dead`, with Stopping/Proof about it; Instance/Waiting is
--   `wait_ready` and `probe_now`, with Waiting/Answers about what is answered.
-- * LogSink (crates/nyanpasu-core-manager/src/log_sink.rs): names, numbers and retention of the
--   core-log files; LogSink/Names and LogSink/Retention are about them.
-- * LogIndex (crates/nyanpasu-logging/src/index.rs): the index of a log file, `insert` and `evict`;
--   LogIndex/Append is `append`, LogIndex/Scan `scan`. The pool of targets is the list of its texts and a
--   symbol a place in it. LogIndex/Ordered has the entries in order, Bounds the limits, Postings the
--   tables, Names the texts of the symbols, Scan/Finding the binary search, Scan/Candidates what a search looks at, Scan/Filtering its
--   tests and Scan/Found its answer.
--
-- How they interact: `submit` reads the closing latch, digests the command and admits it under the
-- registry's lock, where it is put into the queue; `shutdown` sets the latch, waits for a permit and
-- sends by it; the executor receives, refuses what was queued before the latch, runs the rest, sets
-- each terminal state, and drains the queue when it leaves. Any number of threads submit, so the
-- control plane is a step relation: a step is what one thread does between two waits, and a run is a
-- list of steps in any order. The monitor of an instance is such a relation too: it runs beside the
-- threads that probe the core, print its log and stop it. The manager sees an instance as a handle of its
-- host, which it launches, watches and stops.
--
-- Conventions. Strings and byte slices are lists of bytes. A mutable object is a state that each
-- operation takes and gives back. Machine integers keep their bounds: sequence numbers wrap at
-- 2 ^ 64, failure counters saturate at the largest `u32`, an id's fields carry `InRange`. Durations
-- and instants are numbers. The eviction loop runs on fuel, one more than the registry's order has
-- ids; each round takes one id out, and what its theorem states of the result it states at that fuel.
-- The queue is tokio's and stands outside the program: its operations are fields of the record
-- `Channel`, with what its documentation says of messages and permits, and Control/Plane/Buffer fills
-- the record with a concrete buffer. Processes and files are the state of a host, and the operations on
-- them are parameters of the functions that call them.
--
-- A transaction of the manager is a function of the session to the session and a result, and the control
-- lock makes the transactions a sequence. A call that a deadline may cut off answers `none` then, with
-- what it did to the host until then. An `expect` on the slot answers with an error of its own,
-- `slot_expected` or `running_expected`; the source panics there.
--
-- Not modelled: in Control, what an operation does is a parameter, of Execute as the manager's methods and
-- of Plane as any output, error or panic; also the clock in `OperationId::generate`, `check`, and the
-- handles that wait for a state. Of the manager, its construction with the sweep of orphans, the readers
-- of its state and the task that forwards an instance's updates; the artifacts of an epoch are the host's.
-- Of an instance, its spawn up to the monitor, with its command line, and the timing of its probes; the
-- parser of its log is an interface. The configuration pipeline, the runtime store, the backend of processes, the log
-- sessions, the writing of logs, the HTTP client and the operating-system glue of the service have no model
-- here.
pub mod Shared
pub mod Failure
pub mod Health
pub mod Control
pub mod Instance
pub mod Manager
pub mod LogSink
pub mod LogIndex
