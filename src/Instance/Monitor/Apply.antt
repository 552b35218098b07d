-- ===== src/Instance/Monitor/Apply.antt =====
-- The application of an observation: `ProbeReconcile::apply` of
-- crates/nyanpasu-core-manager/src/instance.rs, up to its wait for the supervisor's answer and after it.
use clash_nyanpasu_service.Shared.{
  ℕ, Bool, true, false, not, ◌&&◌, ◌||◌, Option, none, some, ltb, if◌then◌else◌,
}
use clash_nyanpasu_service.Health.{HealthTracker, observe, state_eq, TrackerState, TrackerUpdate}
use clash_nyanpasu_service.Manager.Status.{InstanceState}
use clash_nyanpasu_service.Instance.{
  ProbeObservation, ProbeDriver, liveness, RunState, observation_applies, health_status,
}
use clash_nyanpasu_service.Instance.Logs.{LogParser}
use clash_nyanpasu_service.Instance.Monitor.{
  Origin, observed, drained, selecting, draining, acknowledging, MonitorOptions, Monitor,
}

module _ (l : LogParser) (options : MonitorOptions) where
  -- The return of `apply` with `false`.
  unfoldable pub resume : Origin → Monitor l options → Monitor l options
  resume observed m = record m { loop = selecting }
  resume (drained deadline) m = record m { loop = draining deadline }

  unfoldable pub beyond : Option ℕ → ℕ → Bool
  beyond none at = false
  beyond (some deadline) at = ltb deadline at

  unfoldable pub too_late : ProbeObservation → Monitor l options → Bool
  unfolding beyond
  too_late o m =
      (not m.ever_ready && ltb options.initial_deadline o.completed_at)
      || beyond m.respawn_deadline o.completed_at

  -- The end of `apply` without an acknowledgement.
  unfoldable pub show_health :
      Origin → ProbeObservation → TrackerUpdate → Monitor l options → Monitor l options
  unfolding health_status resume
  show_health origin o update m = resume origin (record m {
    status = record m.status { health = some (health_status m.status.health update o) };
  })

  -- `apply` from the update of the tracker to the wait.
  unfoldable pub apply_update :
      Origin
      → ProbeObservation
      → RunState
      → HealthTracker × TrackerUpdate
      → Monitor l options
      → Monitor l options
  unfolding show_health state_eq
  apply_update origin o run (tracker, update) m =
      if not run.ack_attempted && state_eq update.state TrackerState.healthy
      then record m {
        current = some (record run { tracker = tracker; ack_attempted = true });
        loop = acknowledging run.pid o update origin;
      }
      else show_health origin o update
          (record m { current = some (record run { tracker = tracker }) })

  unfoldable pub apply_to :
      Origin → ProbeObservation → Option RunState → Monitor l options → Monitor l options
  unfolding resume observation_applies too_late apply_update observe
  apply_to origin o none m = resume origin m
  apply_to origin o (some run) m =
      if not (observation_applies o run)
      then resume origin m
      else if too_late o m
      then resume origin m
      else apply_update origin o run (observe run.tracker o.completed_at o.result) m

  -- `apply` up to its wait, or to its end.
  unfoldable pub apply_observation :
      Origin → ProbeObservation → Monitor l options → Monitor l options
  unfolding apply_to
  apply_observation origin o m = apply_to origin o m.current m

  unfoldable pub made_ready : Option RunState → Option RunState
  made_ready none = none
  made_ready (some run) = some (record run { ready = true })

  unfoldable pub use_liveness : Option ProbeDriver → Option ProbeDriver
  use_liveness none = none
  use_liveness (some driver) = some (record driver { periodic = liveness })

  -- `apply` from the supervisor's answer.
  unfoldable pub acknowledged :
      Bool → ℕ → ProbeObservation → TrackerUpdate → Origin → Monitor l options → Monitor l options
  unfolding made_ready use_liveness health_status resume
  acknowledged true pid o update origin m = record m {
    ever_ready = true;
    respawn_deadline = none;
    current = made_ready m.current;
    driver = use_liveness m.driver;
    status = record m.status {
      state = InstanceState.running pid;
      health = some (health_status m.status.health update o);
    };
    loop = selecting;
  }
  acknowledged false pid o update origin m = resume origin m
