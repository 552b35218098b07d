-- ===== src/Instance/Monitor.antt =====
-- The monitor of an instance: `monitor_loop`, `ProbeReconcile` and `publish_terminal` of
-- crates/nyanpasu-core-manager/src/instance.rs. Each arm of the loop's `select!` is a function, and the
-- arm of an observation has two, before and after it waits for the supervisor's acknowledgement.
pub mod Apply
pub mod Moves
pub mod Inv
pub mod Runs
pub mod Outcomes
mod Tests
use clash_nyanpasu_service.Shared.{
  ℕ, ◌+◌, Bytes, codes, Bool, true, false, not, ◌&&◌, ◌||◌, Option, none, some, List, [], ◌∷◌, ◌++◌,
  ltb, if◌then◌else◌,
}
use clash_nyanpasu_service.Health.{
  HealthPolicy, HealthTracker, new_tracker, observe, state_eq, TrackerState, TrackerUpdate,
}
use clash_nyanpasu_service.Manager.Status.{
  HealthState, HealthStatus, fresh_health, StopReason, finished, user, error, InstanceState,
  InstanceStatus,
}
use clash_nyanpasu_service.Instance.{
  ProbeObservation, ProbeDriver, ProbePhase, readiness, liveness, RunState, TerminatedPayload,
  SupervisorEvent, started, restarting, exited, gave_up, stopped, ready, observation_applies,
  next_run, reset_starting_health, health_status,
}
use clash_nyanpasu_service.Instance.Logs.{LogParser, Logs, flush_log_record, diagnostics}

-- The total limit of the first start, and the limit of a later one.
pub data Deadline : Type 0 where
  initial respawn : Deadline

-- What applies an observation: its arm, or the loop that a deadline starts over those that wait.
pub data Origin : Type 0 where
  observed : Origin
  drained : Deadline → Origin

-- Where the task is: before it looks at the cancellation, with that arm polled, in the loop of a
-- deadline, waiting for an acknowledgement, or done.
pub data Loop : Type 0 where
  selecting polled returned : Loop
  draining : Deadline → Loop
  acknowledging : (pid : ℕ) → ProbeObservation → TrackerUpdate → Origin → Loop

-- The thread that stops the instance, by how far it is.
pub data Stopper : Type 0 where
  absent checked flagged silenced shown joined aborted confirmed : Stopper

-- What the loop is started with.
pub record MonitorOptions : Type 0 where
  pub health : HealthPolicy
  pub startup_timeout : ℕ
  pub initial_deadline : ℕ

-- What an arm reads from the clocks and draws for an id.
pub record Clock : Type 0 where
  pub now : ℕ
  pub now_ms : ℕ
  pub uuid : ℕ

debug_exit : Option TerminatedPayload → Bytes
debug_exit none = codes "None"
debug_exit (some payload) = codes "Some(" ++ (payload.shown ++ codes ")")

unfoldable pub exited_cleanly : Option TerminatedPayload → Bool
exited_cleanly none = false
exited_cleanly (some payload) = payload.code_is_zero

module _ (l : LogParser) (options : MonitorOptions) where
  -- `Shared` and the variables of the loop, with the channel of the observations.
  pub record Monitor : Type 0 where
    pub status : InstanceStatus
    pub user_stop : Bool
    pub probe_timeout : Bool
    pub probe_cancel : Bool
    pub cancel : Bool
    -- Whether the supervisor is in its mutex.
    pub supervised : Bool
    pub logs : Logs l
    pub observations : List ProbeObservation
    pub ever_ready : Bool
    pub timeout_fired : Bool
    pub probes_cancelled : Bool
    pub next_run_id : ℕ
    pub current : Option RunState
    pub driver : Option ProbeDriver
    pub respawn_deadline : Option ℕ
    pub last_exit : Option TerminatedPayload
    pub loop : Loop
    pub stopper : Stopper

  -- The monitor as `spawn_configured` starts it.
  pub spawned : Logs l → (now_ms : ℕ) → Monitor
  spawned logs now_ms = record {
    status = record {
      instance_id = none;
      state = InstanceState.starting;
      health = some (fresh_health HealthState.starting now_ms);
    };
    user_stop = false;
    probe_timeout = false;
    probe_cancel = false;
    cancel = false;
    supervised = true;
    logs = logs;
    observations = [];
    ever_ready = false;
    timeout_fired = false;
    probes_cancelled = false;
    next_run_id = 0;
    current = none;
    driver = none;
    respawn_deadline = none;
    last_exit = none;
    loop = selecting;
    stopper = absent;
  }

  -- `stop_probe_driver`, with the run and its deadline given up.
  drop_run : Monitor → Monitor
  drop_run m = record m { driver = none; current = none; respawn_deadline = none }

  -- The arm of `probe_cancel`.
  pub cancelled : Monitor → Monitor
  unfolding drop_run
  cancelled m = record (drop_run m) { probes_cancelled = true; loop = selecting }

  -- `Started`.
  on_started : ℕ → Clock → Monitor → Monitor
  unfolding next_run reset_starting_health
  on_started pid clock m =
      let run_id = next_run m.next_run_id in
      record m {
        next_run_id = run_id;
        status = record m.status {
          instance_id = some clock.uuid;
          health = some (reset_starting_health m.status.health clock.now_ms);
        };
        current = some (record {
          run_id = run_id;
          pid = pid;
          ack_attempted = false;
          ready = false;
          tracker = new_tracker options.health clock.now;
        });
        respawn_deadline =
            if m.ever_ready then some (clock.now + options.startup_timeout) else none;
        driver =
            if m.probes_cancelled
            then none
            else some (record { run_id = run_id; pid = pid; periodic = readiness });
        loop = selecting;
      }

  -- `Restarting`.
  on_restarting : ℕ → Clock → Monitor → Monitor
  unfolding drop_run reset_starting_health
  on_restarting attempt clock m = record (drop_run m) {
    status = record {
      instance_id = none;
      state = InstanceState.restarting attempt;
      health = some (reset_starting_health m.status.health clock.now_ms);
    };
    loop = selecting;
  }

  -- The loop's variables go with it, the driver among them, which its drop cancels.
  leave : StopReason → Logs l → Monitor → Monitor
  leave reason logs m = record m {
    logs = logs;
    status = record { instance_id = none; state = InstanceState.stopped reason; health = none };
    driver = none;
    loop = returned;
  }

  leave_with : Bytes → Logs l × Bytes → Monitor → Monitor
  unfolding leave
  leave_with text (logs, tail) m = leave (error (text ++ (codes "\n" ++ tail))) logs m

  -- `publish_terminal` and the return after it.
  pub publish_terminal : Monitor → Monitor
  unfolding leave leave_with flush_log_record diagnostics exited_cleanly debug_exit
  publish_terminal m =
      let flushed = flush_log_record l m.logs in
      if m.user_stop
      then leave user flushed m
      else if m.probe_timeout
      then leave_with (codes "health probe timed out") (diagnostics l flushed) m
      else if exited_cleanly m.last_exit
      then leave finished flushed m
      else leave_with (codes "core exited unexpectedly (" ++ (debug_exit m.last_exit ++ codes ")"))
          (diagnostics l flushed) m

  -- The arm of the supervisor's events.
  pub receive_event : SupervisorEvent → Clock → Monitor → Monitor
  unfolding on_started on_restarting drop_run leave_with diagnostics publish_terminal
  receive_event (started pid) clock m = on_started pid clock m
  receive_event (restarting attempt) clock m = on_restarting attempt clock m
  receive_event (exited payload) clock m = record (drop_run m) {
    last_exit = some payload;
    loop = selecting;
  }
  receive_event gave_up clock m =
      leave_with (codes "core kept crashing; restart budget exhausted") (diagnostics l m.logs) m
  receive_event stopped clock m = publish_terminal m
  receive_event ready clock m = record m { loop = selecting }

  time_out : Monitor → Monitor
  unfolding drop_run
  time_out m = record (drop_run m) {
    probe_timeout = true;
    probe_cancel = true;
    cancel = true;
    loop = selecting;
  }

  gone : Option ℕ → Bool
  gone none = true
  gone (some deadline) = false

  -- The end of a deadline's arm, with no observation left and none acknowledged.
  pub expire : Deadline → Monitor → Monitor
  unfolding time_out gone
  expire initial m =
      if m.ever_ready
      then record m { loop = selecting }
      else time_out (record m { timeout_fired = true })
  expire respawn m = if gone m.respawn_deadline then record m { loop = selecting } else time_out m
