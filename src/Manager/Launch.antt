-- ===== src/Manager/Launch.antt =====
-- Bringing up the first core of an epoch: `start_prepared` and `start_locked` of
-- crates/nyanpasu-core-manager/src/manager/mod.rs, and the ways a transaction gives up.
pub mod Settling
pub mod Outcomes
use clash_nyanpasu_service.Shared.{Bytes, codes, Bool, true, false, Option, none, some, ◌++◌}
use clash_nyanpasu_service.Failure.{Epoch, Error}
use clash_nyanpasu_service.Control.Execute.{InstanceSpec}
use clash_nyanpasu_service.Manager.Status.{CoreState}
use clash_nyanpasu_service.Manager.Effects.{
  Result, ok, err, ◌>>=◌, ◌>>◌, return, is_unconfirmed, EpochPlan, Snapshot, Host, process_id,
  wait_ready, load, cleanup,
}
use clash_nyanpasu_service.Manager.Session.{
  Tx, call, publish, publish_instance, publish_terminal_error, latch_quarantine, next_epoch, launch,
  stop_instance, install,
}
use clash_nyanpasu_service.Manager.Prepare.{prepare_launch}

module _ (h : Host) where
  open h use {Instance, Document}

  -- The four ways a transaction ends in an error: published, published with the epoch's artifacts
  -- removed, with the epoch latched, and, after a stop, latched or published.
  pub fail_published : {A : Type 0} → Error → Tx h (Result A)
  fail_published error = publish_terminal_error h error >> return (err error)

  pub fail_cleaned : {A : Type 0} → Epoch → Error → Tx h (Result A)
  unfolding fail_published
  fail_cleaned epoch error = call h (cleanup epoch) >> fail_published error

  pub fail_latched : {A : Type 0} → Epoch → Error → Tx h (Result A)
  fail_latched epoch error = do latched ← latch_quarantine h epoch error; return (err latched)

  stop_failure : {A : Type 0} → Bool → Epoch → Error → Tx h (Result A)
  unfolding fail_published fail_latched
  stop_failure true epoch error = fail_latched epoch error
  stop_failure false epoch error = fail_published error

  pub fail_stop : {A : Type 0} → Epoch → Error → Tx h (Result A)
  unfolding stop_failure
  fail_stop epoch error = stop_failure (is_unconfirmed error) epoch error

  pub unstopped : Error → (detail : Bytes) → Error → Error
  unstopped error detail stop_error =
      Error.stop_unconfirmed (h.to_string error ++ (detail ++ h.to_string stop_error))

  reject_initial : EpochPlan Document → Error → Result (Unit {0}) → Tx h (Result (Unit {0}))
  unfolding fail_cleaned fail_latched unstopped
  reject_initial plan error (ok u) = fail_cleaned plan.revision.epoch error
  reject_initial plan error (err stop_error) =
      fail_latched plan.revision.epoch
        (unstopped error (codes "; failed to stop rejected initial instance: ") stop_error)

  ready_initial : EpochPlan Document → Instance → Result (Unit {0}) → Tx h (Result (Unit {0}))
  unfolding reject_initial
  ready_initial plan i (ok u) = do
    pid ← call h (process_id i)
    publish_instance h i (CoreState.running plan.revision.epoch pid) plan
    install h i plan
    return (ok tt)
  ready_initial plan i (err error) = do
    stopped ← stop_instance h i
    reject_initial plan error stopped

  spawned_initial : EpochPlan Document → Result Instance → Tx h (Result (Unit {0}))
  unfolding ready_initial fail_cleaned
  spawned_initial plan (ok i) = do ready ← call h (wait_ready i); ready_initial plan i ready
  spawned_initial plan (err error) = fail_cleaned plan.revision.epoch error

  -- `start_prepared`.
  pub start_prepared : EpochPlan Document → Tx h (Result (Unit {0}))
  unfolding spawned_initial
  start_prepared plan = do
    publish h (CoreState.starting plan.revision.epoch) (some plan)
    spawned ← launch h plan
    spawned_initial plan spawned

  start_planned : Epoch → Result (EpochPlan Document) → Tx h (Result (Unit {0}))
  unfolding start_prepared fail_cleaned
  start_planned epoch (ok plan) = start_prepared plan
  start_planned epoch (err error) = fail_cleaned epoch error

  start_loaded : InstanceSpec → Epoch → Result (Snapshot Document) → Tx h (Result (Unit {0}))
  unfolding start_planned fail_published
  start_loaded spec epoch (ok snapshot) = do
    prepared ← prepare_launch h spec epoch snapshot
    start_planned epoch prepared
  start_loaded spec epoch (err error) = fail_published error

  -- `start_locked`.
  pub start_locked : InstanceSpec → Tx h (Result (Unit {0}))
  unfolding start_loaded
  start_locked spec = do
    epoch ← next_epoch h
    snapshot ← call h (load spec.config_path)
    start_loaded spec epoch snapshot
