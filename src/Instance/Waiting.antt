-- ===== src/Instance/Waiting.antt =====
-- Those who ask an instance: `wait_ready`, `probe_now` and the monitor's arm of the probe requests, of
-- crates/nyanpasu-core-manager/src/instance.rs.
pub mod Answers
use clash_nyanpasu_service.Shared.{
  Bytes, codes, Bool, true, false, Option, none, some, ◌++◌, if◌then◌else◌, is_some_and,
}
use clash_nyanpasu_service.Failure.{Error}
use clash_nyanpasu_service.Health.{ProbeResult}
use clash_nyanpasu_service.Manager.Status.{
  InstanceState, running, stopped, StopReason, finished, user, error,
}
use clash_nyanpasu_service.Instance.{ProbePhase, reconcile, ProbeDriver, RunState}
use clash_nyanpasu_service.Instance.Logs.{LogParser, Logs, diagnostics, failure_summary}
use clash_nyanpasu_service.Instance.Monitor.{MonitorOptions, Monitor}

reason_text : StopReason → Bytes
reason_text (error text) = text
reason_text user = codes "stopped before ready: User"
reason_text finished = codes "stopped before ready: Finished"

no_answer : Bytes → ProbeResult
no_answer text = ProbeResult.unhealthy (some text)

module _ (l : LogParser) (options : MonitorOptions) where
  -- What one look at the status gives `wait_ready`; a failure leaves the logs flushed.
  pub data Look : Type 0 where
    waits is_ready : Look
    fails : Monitor l options → Error → Look

  failed_start : Monitor l options → Bool → Logs l × Bytes → Look
  failed_start m true (logs, tail) = fails (record m { logs = logs }) (Error.startup_timeout tail)
  failed_start m false (logs, tail) = fails (record m { logs = logs }) (Error.startup_failed tail)

  look_at_state : InstanceState → Monitor l options → Look
  unfolding failed_start reason_text
  look_at_state (InstanceState.running pid) m = is_ready
  look_at_state (InstanceState.stopped reason) m =
      failed_start m m.probe_timeout (failure_summary l (reason_text reason) m.logs)
  look_at_state InstanceState.starting m = waits
  look_at_state (InstanceState.restarting attempt) m = waits
  look_at_state InstanceState.stopping m = waits

  -- One round of the loop of `wait_ready`, up to its wait for a change.
  pub look : Monitor l options → Look
  unfolding look_at_state
  look m = look_at_state m.status.state m

  -- The same where the status can change no more.
  look_closed : Monitor l options → Look
  unfolding failed_start
  look_closed m = failed_start m false (diagnostics l m.logs)

  -- Where a request goes: to the driver, or back with a no_answer.
  pub data Asked : Type 0 where
    forwarded : ProbeDriver → Asked
    answered : ProbeResult → Asked

  ask_driver : Option ProbeDriver → Asked
  unfolding no_answer
  ask_driver none = answered (no_answer (codes "instance probe driver is not running"))
  ask_driver (some driver) = forwarded driver

  -- The arm of the probe requests.
  receive_request : Monitor l options → Asked
  unfolding ask_driver no_answer
  receive_request m =
      if is_some_and m.current (λ run. run.ready)
      then ask_driver m.driver
      else answered (no_answer (codes "instance is not running"))

  -- `probe_now`, to a monitor that receives.
  pub probe_now : ProbePhase → Monitor l options → Asked
  unfolding receive_request no_answer
  probe_now reconcile m = receive_request m
  probe_now _ m =
      answered (no_answer (codes "only reconciliation probes can be requested directly"))
