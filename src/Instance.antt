-- ===== src/Instance.antt =====
-- One epoch of a running core: crates/nyanpasu-core-manager/src/instance.rs, with the observations of
-- health/driver.rs. The supervisor of the process is another crate, and what it tells is chosen by the
-- environment; instants, milliseconds and instance ids are numbers that the caller reads.
pub mod Logs
pub mod Monitor
pub mod Stopping
pub mod Waiting
mod Tests
use clash_nyanpasu_service.Shared.{
  ℕ, ◌+◌, ◌==◌, Bytes, Bool, true, false, ◌&&◌, Option, none, some, ltb, if◌then◌else◌,
}
use clash_nyanpasu_service.Health.{
  HealthPolicy, HealthTracker, TrackerState, TrackerUpdate, ProbeResult,
}
use clash_nyanpasu_service.Manager.Status.{HealthState, HealthStatus}

pub data ProbePhase : Type 0 where
  readiness liveness reconcile : ProbePhase

pub record ProbeObservation : Type 0 where
  pub run_id : ℕ
  pub pid : ℕ
  pub phase : ProbePhase
  pub completed_at : ℕ
  pub completed_at_ms : ℕ
  pub result : ProbeResult

-- The driver's task by the run that it probes; `use_liveness` changes the probe that it repeats.
pub record ProbeDriver : Type 0 where
  pub run_id : ℕ
  pub pid : ℕ
  pub periodic : ProbePhase

pub record RunState : Type 0 where
  pub run_id : ℕ
  pub pid : ℕ
  pub ack_attempted : Bool
  pub ready : Bool
  pub tracker : HealthTracker

-- A `TerminatedPayload`: whether its code is 0, and the text that it displays.
pub record TerminatedPayload : Type 0 where
  pub code_is_zero : Bool
  pub shown : Bytes

-- The events of the supervisor; `ready` stands for those that the loop ignores.
pub data SupervisorEvent : Type 0 where
  started : (pid : ℕ) → SupervisorEvent
  restarting : (attempt : ℕ) → SupervisorEvent
  exited : TerminatedPayload → SupervisorEvent
  gave_up stopped ready : SupervisorEvent

-- `observation_applies`.
pub observation_applies : ProbeObservation → RunState → Bool
observation_applies o run = o.run_id == run.run_id && o.pid == run.pid

abbrev pub u64_max : ℕ
u64_max = 18446744073709551615

-- `next_run_id.saturating_add(1)`.
pub next_run : ℕ → ℕ
next_run n = if ltb n u64_max then n + 1 else u64_max

same_health : HealthState → HealthState → Bool
same_health HealthState.starting HealthState.starting = true
same_health HealthState.healthy HealthState.healthy = true
same_health HealthState.unhealthy HealthState.unhealthy = true
same_health _ _ = false

-- The time of the previous status where its state is the new one.
since : HealthState → ℕ → Option HealthStatus → ℕ
unfolding same_health
since state now none = now
since state now (some h) = if same_health h.state state then h.changed_at else now

-- `reset_starting_health`.
pub reset_starting_health : Option HealthStatus → ℕ → HealthStatus
unfolding since
reset_starting_health previous now = record {
  state = HealthState.starting;
  changed_at = since HealthState.starting now previous;
  consecutive_failures = 0;
  last_error = none;
  last_success_at = none;
}

pub health_of : TrackerState → HealthState
health_of TrackerState.starting = HealthState.starting
health_of TrackerState.healthy = HealthState.healthy
health_of TrackerState.unhealthy = HealthState.unhealthy

last_success : Option HealthStatus → Option ℕ
last_success none = none
last_success (some h) = h.last_success_at

success_at : ProbeResult → ℕ → Option HealthStatus → Option ℕ
unfolding last_success
success_at ProbeResult.healthy at previous = some at
success_at (ProbeResult.unhealthy detail) at previous = last_success previous

-- `health_status`.
pub health_status : Option HealthStatus → TrackerUpdate → ProbeObservation → HealthStatus
unfolding since health_of success_at
health_status previous update o = record {
  state = health_of update.state;
  changed_at = since (health_of update.state) o.completed_at_ms previous;
  consecutive_failures = update.consecutive_failures;
  last_error = update.last_error;
  last_success_at = success_at o.result o.completed_at_ms previous;
}
