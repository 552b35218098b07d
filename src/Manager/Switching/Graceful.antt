-- ===== src/Manager/Switching/Graceful.antt =====
-- `graceful_switch` of crates/nyanpasu-core-manager/src/manager/switching.rs: the new core comes up
-- beside the old one, on a bootstrap configuration.
pub mod Overlap
pub mod Replaced
use clash_nyanpasu_service.Shared.{Bytes, codes, Bool, true, false, Option, none, some, ◌++◌}
use clash_nyanpasu_service.Failure.{Epoch, Error}
use clash_nyanpasu_service.Control.Execute.{InstanceSpec}
use clash_nyanpasu_service.Manager.Status.{CoreState}
use clash_nyanpasu_service.Manager.Effects.{
  Result, ok, err, ◌>>=◌, ◌>>◌, return, is_unconfirmed, EpochPlan, Snapshot, ResolvedFeatures, Host,
  process_id, wait_ready, commit_replace, cleanup,
}
use clash_nyanpasu_service.Manager.Session.{
  Tx, Retired, nothing, retired, unproven, call, publish_instance, quarantine_epoch, next_epoch,
  launch, stop_instance, install, retire_current, spawn_replacement,
}
use clash_nyanpasu_service.Manager.Prepare.{PreparedGraceful, prepare_graceful}
use clash_nyanpasu_service.Manager.InPlace.{probe_healthy, patch_and_verify}
use clash_nyanpasu_service.Manager.Launch.{
  fail_published, fail_cleaned, fail_latched, fail_stop, unstopped,
}
use clash_nyanpasu_service.Manager.Switching.{
  DegradeReason, SwitchOutcome, with_switch_durability_result, running_expected, fail_retained,
  publish_switching,
}

after_cleanup : SwitchOutcome → Result (Unit {0}) → Result SwitchOutcome
after_cleanup outcome (ok u) = ok outcome
after_cleanup outcome (err error) = err error

module _ (h : Host) where
  open h use {Instance, Document, Patch}

  -- The new core takes the slot, and the old epoch's artifacts go.
  take_over :
      SwitchOutcome
      → EpochPlan Document
      → Epoch
      → Instance
      → (old : EpochPlan Document) → Option Bytes
      → Tx h (Result SwitchOutcome)
  unfolding after_cleanup
  take_over outcome plan epoch i old warning = do
    pid ← call h (process_id i)
    publish_instance h i (CoreState.running epoch pid) plan
    install h i plan
    cleaned ← call h (cleanup old.revision.epoch)
    return (with_switch_durability_result (after_cleanup outcome cleaned) warning)

  unreplaced : Epoch → Error → Bool → Tx h (Result SwitchOutcome)
  unreplaced epoch error true = fail_latched h epoch error
  unreplaced epoch error false = fail_cleaned h epoch error

  warned : Option Bytes → Tx h (Result SwitchOutcome) → Tx h (Result SwitchOutcome)
  warned warning m = do result ← m; return (with_switch_durability_result result warning)

  replaced :
      EpochPlan Document
      → Epoch
      → (old : EpochPlan Document) → Option Bytes
      → Result Instance
      → Tx h (Result SwitchOutcome)
  unfolding take_over warned unreplaced
  replaced plan epoch old warning (ok i) =
      take_over (SwitchOutcome.hard DegradeReason.patch_failed) plan epoch i old warning
  replaced plan epoch old warning (err error) =
      warned warning (unreplaced epoch error (is_unconfirmed error))

  -- The bootstrap that could not be patched is stopped, and started anew on the full configuration.
  restarted :
      EpochPlan Document
      → Epoch
      → (old : EpochPlan Document) → Option Bytes
      → Result (Unit {0})
      → Tx h (Result SwitchOutcome)
  unfolding replaced warned
  restarted plan epoch old warning (ok u) = do
    replacement ← spawn_replacement h plan
    replaced plan epoch old warning replacement
  restarted plan epoch old warning (err error) = warned warning (fail_stop h epoch error)

  reconciled :
      EpochPlan Document
      → Epoch
      → Instance
      → (old : EpochPlan Document) → Option Bytes
      → Bool
      → Tx h (Result SwitchOutcome)
  unfolding take_over restarted
  reconciled plan epoch i old warning true =
      take_over SwitchOutcome.graceful plan epoch i old warning
  reconciled plan epoch i old warning false = do
    stopped ← stop_instance h i
    restarted plan epoch old warning stopped

  full_commit_error : Error → Error → Error
  full_commit_error error new_error = Error.stop_unconfirmed (
      codes "full runtime commit failed: "
      ++ (h.to_string error ++ (codes "; bootstrap stop also failed: " ++ h.to_string new_error)))

  uncommitted : Epoch → Error → Result (Unit {0}) → Tx h (Result SwitchOutcome)
  unfolding full_commit_error
  uncommitted epoch error (ok u) = call h (cleanup epoch) >> fail_stop h epoch error
  uncommitted epoch error (err new_error) = fail_stop h epoch (full_commit_error error new_error)

  restore_full : Instance → Option Patch → Tx h Bool
  restore_full i none = probe_healthy h i
  restore_full i (some patch) = patch_and_verify h i patch

  pub committed :
      PreparedGraceful h
      → Epoch
      → Instance
      → (old : EpochPlan Document) → Result (Option Bytes)
      → Tx h (Result SwitchOutcome)
  unfolding reconciled uncommitted restore_full
  committed prepared epoch i old (ok warning) = do
    verified ← restore_full i prepared.restoration
    reconciled prepared.plan epoch i old warning verified
  committed prepared epoch i old (err error) = do
    stopped ← stop_instance h i
    uncommitted epoch error stopped

  both_unstopped : Error → Error → Error
  both_unstopped error new_error = Error.stop_unconfirmed (
      codes "old epoch stop failed: "
      ++ (h.to_string error
          ++ (codes "; new bootstrap stop also failed: " ++ h.to_string new_error)))

  record_uncertain : Bool → Epoch → Error → Tx h (Unit {0})
  record_uncertain true old_epoch error = quarantine_epoch h old_epoch (h.to_string error)
  record_uncertain false old_epoch error = return tt

  old_unstopped :
      Epoch → (old_epoch : Epoch) → Error → Result (Unit {0}) → Tx h (Result SwitchOutcome)
  unfolding both_unstopped record_uncertain
  old_unstopped epoch old_epoch error (ok u) = call h (cleanup epoch) >> fail_stop h old_epoch error
  old_unstopped epoch old_epoch error (err new_error) = do
    record_uncertain (is_unconfirmed error) old_epoch error
    fail_latched h epoch (both_unstopped error new_error)

  old_retired :
      PreparedGraceful h → Epoch → Instance → Retired Document → Tx h (Result SwitchOutcome)
  unfolding committed old_unstopped
  old_retired prepared epoch i nothing = return (err running_expected)
  old_retired prepared epoch i (retired old) = do
    result ← call h (commit_replace prepared.full_staged epoch)
    committed prepared epoch i old result
  old_retired prepared epoch i (unproven old_epoch error) = do
    stopped ← stop_instance h i
    old_unstopped epoch old_epoch error stopped

  reject_bootstrap : Epoch → Error → Result (Unit {0}) → Tx h (Result SwitchOutcome)
  reject_bootstrap epoch error (ok u) = fail_retained h epoch error
  reject_bootstrap epoch error (err stop_error) =
      fail_latched h epoch
        (unstopped h error (codes "; failed to stop rejected graceful bootstrap: ") stop_error)

  bootstrap_ready :
      PreparedGraceful h → Epoch → Instance → Result (Unit {0}) → Tx h (Result SwitchOutcome)
  unfolding old_retired reject_bootstrap
  bootstrap_ready prepared epoch i (ok u) = do
    old ← retire_current h
    old_retired prepared epoch i old
  bootstrap_ready prepared epoch i (err error) = do
    stopped ← stop_instance h i
    reject_bootstrap epoch error stopped

  bootstrap_spawned : PreparedGraceful h → Epoch → Result Instance → Tx h (Result SwitchOutcome)
  unfolding bootstrap_ready
  bootstrap_spawned prepared epoch (ok i) = do
    ready ← call h (wait_ready i)
    bootstrap_ready prepared epoch i ready
  bootstrap_spawned prepared epoch (err error) = fail_retained h epoch error

  bootstrap_prepared : Epoch → Result (PreparedGraceful h) → Tx h (Result SwitchOutcome)
  unfolding bootstrap_spawned
  bootstrap_prepared epoch (ok prepared) = do
    publish_switching h epoch prepared.plan
    spawned ← launch h prepared.plan
    bootstrap_spawned prepared epoch spawned
  bootstrap_prepared epoch (err error) = fail_retained h epoch error

  -- `graceful_switch`.
  pub graceful_switch :
      InstanceSpec → Snapshot Document → ResolvedFeatures → Tx h (Result SwitchOutcome)
  unfolding bootstrap_prepared
  graceful_switch spec snapshot resolved = do
    epoch ← next_epoch h
    prepared ← prepare_graceful h spec epoch snapshot resolved
    bootstrap_prepared epoch prepared
