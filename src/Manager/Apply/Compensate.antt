-- ===== src/Manager/Apply/Compensate.antt =====
-- The way back from a change that failed: `restart_with_compensation`, `switch_with_compensation`,
-- `with_durability_warning` and `with_durability_result` of
-- crates/nyanpasu-core-manager/src/manager/apply.rs.
pub mod Served
pub mod Rollback
use clash_nyanpasu_service.Shared.{Bytes, codes, Bool, true, false, Option, none, some, ◌++◌}
use clash_nyanpasu_service.Failure.{Epoch, Error}
use clash_nyanpasu_service.Control.Command.{ApplyOutcome}
use clash_nyanpasu_service.Control.Execute.{InstanceSpec}
use clash_nyanpasu_service.Manager.Status.{CoreState}
use clash_nyanpasu_service.Manager.Effects.{
  Result, ok, err, ◌>>=◌, ◌>>◌, return, is_unconfirmed, EpochPlan, Snapshot, Host, process_id,
  restore, remove_backup, cleanup,
}
use clash_nyanpasu_service.Manager.Session.{
  Tx, Retired, nothing, retired, unproven, call, publish, publish_instance, next_epoch, install,
  retire_current, spawn_replacement,
}
use clash_nyanpasu_service.Manager.Prepare.{prepare_launch}
use clash_nyanpasu_service.Manager.Launch.{fail_published, fail_latched}

pub with_durability_warning : ApplyOutcome → Option Bytes → ApplyOutcome
with_durability_warning outcome none = outcome
with_durability_warning outcome (some warning) = ApplyOutcome.durability_uncertain outcome warning

pub with_durability_result : Result ApplyOutcome → Option Bytes → Result ApplyOutcome
unfolding with_durability_warning
with_durability_result (ok outcome) warning = ok (with_durability_warning outcome warning)
with_durability_result (err error) none = err error
with_durability_result (err error) (some warning) = err (Error.durability_uncertain error warning)

-- An `expect` of the source that the slot is held, which panics; every caller has checked it.
pub slot_expected : Error
slot_expected = Error.process (codes "current held by control lock")

module _ (h : Host) where
  open h use {Instance, Document}

  -- A failed stop before a replacement: latched, or an apply that failed.
  unproven_apply : (detail : Bytes) → Bool → Epoch → Error → Tx h (Result ApplyOutcome)
  unproven_apply detail true epoch error = fail_latched h epoch error
  unproven_apply detail false epoch error =
      fail_published h (Error.apply_failed (detail ++ h.to_string error))

  -- The replacement is installed, and published as running.
  pub install_running : Instance → EpochPlan Document → Tx h (Unit {0})
  install_running i plan = do
    pid ← call h (process_id i)
    install h i plan
    publish_instance h i (CoreState.running plan.revision.epoch pid) plan

  rollback_failed :
      (detail : Bytes)
      → EpochPlan Document
      → (apply_text : Bytes) → Error
      → Bool
      → Tx h (Result ApplyOutcome)
  rollback_failed detail old apply_text error true = fail_latched h old.revision.epoch (
      Error.stop_unconfirmed
        (detail ++ (apply_text ++ (codes "); rollback replacement " ++ h.to_string error))))
  rollback_failed detail old apply_text error false =
      fail_published h (Error.apply_rollback_failed apply_text (h.to_string error))

  -- The old plan is brought up again, `tidy` after it.
  rolled_back :
      (detail : Bytes)
      → Tx h (Unit {0})
      → EpochPlan Document
      → (apply_text : Bytes) → Result Instance
      → Tx h (Result ApplyOutcome)
  unfolding install_running rollback_failed
  rolled_back detail tidy old apply_text (ok i) = do
    install_running i old
    tidy
    return (ok (ApplyOutcome.rolled_back old.revision apply_text))
  rolled_back detail tidy old apply_text (err error) =
      rollback_failed detail old apply_text error (is_unconfirmed error)

  roll_back :
      (detail : Bytes)
      → Tx h (Unit {0})
      → EpochPlan Document
      → (apply_text : Bytes) → Tx h (Result ApplyOutcome)
  unfolding rolled_back
  roll_back detail tidy old apply_text = do
    publish h (CoreState.restarting old.revision.epoch 0) (some old)
    replacement ← spawn_replacement h old
    rolled_back detail tidy old apply_text replacement

  tidy_backup : (saved : Bytes) → Tx h (Unit {0})
  tidy_backup saved = call h (remove_backup saved) >> return tt

  restart_restored :
      EpochPlan Document
      → (saved apply_text : Bytes) → Result (Option Bytes)
      → Tx h (Result ApplyOutcome)
  unfolding roll_back tidy_backup
  restart_restored old saved apply_text (ok warning) = do
    result ← roll_back (codes "desired apply failed (") (tidy_backup saved) old apply_text
    return (with_durability_result result warning)
  restart_restored old saved apply_text (err error) = fail_published h (
      Error.apply_rollback_failed apply_text
        (codes "runtime restore failed: " ++ h.to_string error))

  restart_failed :
      (old desired : EpochPlan Document)
      → (saved : Bytes) → Error
      → Bool
      → Tx h (Result ApplyOutcome)
  unfolding restart_restored
  restart_failed old desired saved error true = fail_latched h desired.revision.epoch error
  restart_failed old desired saved error false = do
    restored ← call h (restore saved)
    restart_restored old saved (h.to_string error) restored

  restart_replaced :
      (old desired : EpochPlan Document)
      → (saved : Bytes) → Result Instance
      → Tx h (Result ApplyOutcome)
  unfolding restart_failed install_running
  restart_replaced old desired saved (ok i) = do
    install_running i desired
    call h (remove_backup saved)
    return (ok (ApplyOutcome.restarted desired.revision))
  restart_replaced old desired saved (err error) =
      restart_failed old desired saved error (is_unconfirmed error)

  restart_retired :
      EpochPlan Document → (saved : Bytes) → Retired Document → Tx h (Result ApplyOutcome)
  unfolding restart_replaced unproven_apply slot_expected
  restart_retired desired saved nothing = return (err slot_expected)
  restart_retired desired saved (retired old) = do
    publish h (CoreState.restarting desired.revision.epoch 0) (some desired)
    replacement ← spawn_replacement h desired
    restart_replaced old desired saved replacement
  restart_retired desired saved (unproven epoch error) =
      unproven_apply (codes "failed to stop current epoch for reconcile: ") (is_unconfirmed error)
        epoch error

  -- `restart_with_compensation`.
  pub restart_with_compensation : EpochPlan Document → (saved : Bytes) → Tx h (Result ApplyOutcome)
  unfolding restart_retired
  restart_with_compensation desired saved = do
    old ← retire_current h
    restart_retired desired saved old

  switch_failed :
      (old desired : EpochPlan Document) → Epoch → Error → Bool → Tx h (Result ApplyOutcome)
  unfolding roll_back
  switch_failed old desired epoch error true = fail_latched h desired.revision.epoch error
  switch_failed old desired epoch error false = do
    call h (cleanup epoch)
    roll_back (codes "desired switch failed (") (return tt) old (h.to_string error)

  switch_replaced :
      (old desired : EpochPlan Document) → Epoch → Result Instance → Tx h (Result ApplyOutcome)
  unfolding switch_failed install_running
  switch_replaced old desired epoch (ok i) = do
    install_running i desired
    call h (cleanup old.revision.epoch)
    return (ok (ApplyOutcome.switched desired.revision))
  switch_replaced old desired epoch (err error) =
      switch_failed old desired epoch error (is_unconfirmed error)

  switch_retired : EpochPlan Document → Epoch → Retired Document → Tx h (Result ApplyOutcome)
  unfolding switch_replaced unproven_apply slot_expected
  switch_retired desired epoch nothing = return (err slot_expected)
  switch_retired desired epoch (retired old) = do
    publish h (CoreState.switching (some old.revision.epoch) desired.revision.epoch) (some desired)
    replacement ← spawn_replacement h desired
    switch_replaced old desired epoch replacement
  switch_retired desired epoch (unproven old_epoch error) = do
    call h (cleanup epoch)
    unproven_apply (codes "failed to stop current epoch for switch: ") (is_unconfirmed error)
        old_epoch error

  switch_planned : Epoch → Result (EpochPlan Document) → Tx h (Result ApplyOutcome)
  unfolding switch_retired
  switch_planned epoch (ok desired) = do old ← retire_current h; switch_retired desired epoch old
  switch_planned epoch (err error) = return (err error)

  -- `switch_with_compensation`.
  pub switch_with_compensation : InstanceSpec → Snapshot Document → Tx h (Result ApplyOutcome)
  unfolding switch_planned
  switch_with_compensation input snapshot = do
    epoch ← next_epoch h
    desired ← prepare_launch h input epoch snapshot
    switch_planned epoch desired
