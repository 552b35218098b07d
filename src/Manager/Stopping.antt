-- ===== src/Manager/Stopping.antt =====
-- Taking the active core down: `stop` and `shutdown` of
-- crates/nyanpasu-core-manager/src/manager/mod.rs. Both bypass the quarantine gate.
pub mod Vacant
use clash_nyanpasu_service.Shared.{Bool, true, false, Option, none, some}
use clash_nyanpasu_service.Failure.{Error}
use clash_nyanpasu_service.Manager.Status.{
  CoreState, StopReason, InstanceStatus, instance_core_state,
}
use clash_nyanpasu_service.Manager.Effects.{
  Result, ok, err, ◌>>=◌, ◌>>◌, return, Host, observe, cleanup, stop_sink,
}
use clash_nyanpasu_service.Manager.Session.{
  Active, Tx, call, publish, stop_instance, take_current, latch_unconfirmed, is_ended,
}
use clash_nyanpasu_service.Manager.Launch.{fail_published, fail_stop}
use clash_nyanpasu_service.Manager.Dns.{dns_restore}

module _ (h : Host) where
  cleaned_up : Result (Unit {0}) → Tx h (Result (Unit {0}))
  cleaned_up (ok u) = publish h (CoreState.stopped (some StopReason.user)) none >> return (ok tt)
  cleaned_up (err error) = fail_published h error

  stopped_live : Active h → Result (Unit {0}) → Tx h (Result (Unit {0}))
  unfolding cleaned_up
  stopped_live a (ok u) = do cleaned ← call h (cleanup (h.epoch_of a.instance)); cleaned_up cleaned
  stopped_live a (err error) = fail_stop h (h.epoch_of a.instance) error

  -- The stop of a core that runs, which the two methods share.
  stop_live : Active h → Tx h (Result (Unit {0}))
  unfolding stopped_live
  stop_live a = do
    publish h (CoreState.stopping (h.epoch_of a.instance)) (some a.plan)
    stopped ← stop_instance h a.instance
    stopped_live a stopped

  cleaned_ended : Result (Unit {0}) → Tx h (Result (Unit {0}))
  cleaned_ended (ok u) = return (err Error.not_started)
  cleaned_ended (err error) = fail_published h error

  stopped_ended : Active h → Result (Unit {0}) → Tx h (Result (Unit {0}))
  unfolding cleaned_ended
  stopped_ended a (ok u) = do
    cleaned ← call h (cleanup (h.epoch_of a.instance))
    cleaned_ended cleaned
  stopped_ended a (err error) = do
    latched ← latch_unconfirmed h (h.epoch_of a.instance) error
    return (err latched)

  -- The stop of a core that had ended.
  stop_ended : Active h → InstanceStatus → Tx h (Result (Unit {0}))
  unfolding stopped_ended
  stop_ended a captured = do
    publish h (instance_core_state (h.epoch_of a.instance) captured.state) (some a.plan)
    stopped ← stop_instance h a.instance
    stopped_ended a stopped

  stop_captured : Bool → Active h → InstanceStatus → Tx h (Result (Unit {0}))
  unfolding stop_ended stop_live
  stop_captured true a captured = stop_ended a captured
  stop_captured false a captured = stop_live a

  stop_taken : Option (Active h) → Tx h (Result (Unit {0}))
  unfolding stop_captured
  stop_taken none = return (err Error.not_started)
  stop_taken (some a) = do
    captured ← call h (observe a.instance)
    stop_captured (is_ended captured.state) a captured

  -- `stop`.
  pub stop : Tx h (Result (Unit {0}))
  unfolding stop_taken
  stop = do dns_restore h; active ← take_current h; stop_taken active

  shut_taken : Option (Active h) → Tx h (Result (Unit {0}))
  unfolding stop_live
  shut_taken none = return (ok tt)
  shut_taken (some a) = stop_live a

  shut_sink : Result (Unit {0}) → Tx h (Result (Unit {0}))
  shut_sink result = call h stop_sink >> return result

  -- `shutdown`: the log sink goes last, with the control lock held.
  pub shutdown : Tx h (Result (Unit {0}))
  unfolding shut_taken shut_sink
  shutdown = do dns_restore h; active ← take_current h; result ← shut_taken active; shut_sink result
