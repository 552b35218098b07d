-- ===== src/Manager/Apply.antt =====
-- The transaction on a core that runs: `apply_locked` of
-- crates/nyanpasu-core-manager/src/manager/apply.rs. Its compensations are in Apply/Compensate.
pub mod Compensate
pub mod Conflicts
pub mod Outcomes
use clash_nyanpasu_service.Shared.{
  Bytes, codes, not, Bool, true, false, ◌&&◌, ◌==◌, bytes_eq, Option, none, some, ◌++◌,
}
use clash_nyanpasu_service.Failure.{Epoch, Error, RevisionId}
use clash_nyanpasu_service.Control.Command.{ApplyOutcome, ConfigRevision, revision_id}
use clash_nyanpasu_service.Control.Execute.{InstanceSpec}
use clash_nyanpasu_service.Manager.Status.{CoreState}
use clash_nyanpasu_service.Manager.Effects.{
  Result, ok, err, ◌>>=◌, ◌>>◌, return, EpochPlan, Snapshot, ConfigChange, Host, observe,
  process_id, load, backup, commit_replace, remove_backup,
}
use clash_nyanpasu_service.Manager.Session.{Active, Session, Tx, call, publish_instance, is_ended}
use clash_nyanpasu_service.Manager.Prepare.{PreparedApply, prepare_apply}
use clash_nyanpasu_service.Manager.InPlace.{reconcile_in_place}
use clash_nyanpasu_service.Manager.Apply.Compensate.{
  with_durability_warning, with_durability_result, restart_with_compensation,
  switch_with_compensation,
}

unfoldable pub revision_id_eq : RevisionId → RevisionId → Bool
revision_id_eq a b =
    a.epoch == b.epoch && a.generation == b.generation && bytes_eq a.effective_hash b.effective_hash

-- The outcome of a change in place; the source has `unreachable!` for the other two.
in_place_outcome : {P : Type 0} → ConfigChange P → ConfigRevision → ApplyOutcome
in_place_outcome (ConfigChange.patch p) revision = ApplyOutcome.patched revision
in_place_outcome _ revision = ApplyOutcome.reloaded revision

module _ (h : Host) where
  open h use {Document, Patch}

  -- The slot, and the spec that is kept for a restart.
  set_plan : Active h → EpochPlan Document → Tx h (Unit {0})
  set_plan a plan s = (record s { current = some (record a { plan = plan }) }, tt)

  set_last_spec : InstanceSpec → Tx h (Unit {0})
  set_last_spec spec s = (record s { last_spec = some spec }, tt)

  in_place :
      Active h
      → ConfigChange Patch
      → EpochPlan Document
      → (saved : Bytes) → Option Bytes
      → Bool
      → Tx h (Result ApplyOutcome)
  unfolding set_plan set_last_spec in_place_outcome
  in_place a change desired saved warning true = do
    set_plan a desired
    pid ← call h (process_id a.instance)
    publish_instance h a.instance (CoreState.running desired.revision.epoch pid) desired
    set_last_spec desired.source_spec
    call h (remove_backup saved)
    return (ok (with_durability_warning (in_place_outcome change desired.revision) warning))
  in_place a change desired saved warning false = do
    result ← restart_with_compensation h desired saved
    return (with_durability_result result warning)

  apply_committed :
      Active h
      → ConfigChange Patch
      → EpochPlan Document
      → (saved : Bytes) → Result (Option Bytes)
      → Tx h (Result ApplyOutcome)
  unfolding in_place
  apply_committed a change desired saved (ok warning) = do
    reconciled ← reconcile_in_place h a change desired
    in_place a change desired saved warning reconciled
  apply_committed a change desired saved (err error) =
      call h (remove_backup saved) >> return (err error)

  apply_saved :
      Active h → ConfigChange Patch → PreparedApply h → Result Bytes → Tx h (Result ApplyOutcome)
  unfolding apply_committed
  apply_saved a change prepared (ok saved) = do
    committed ← call h (commit_replace prepared.staged prepared.plan.revision.epoch)
    apply_committed a change prepared.plan saved committed
  apply_saved a change prepared (err error) = return (err error)

  apply_change : Active h → ConfigChange Patch → PreparedApply h → Tx h (Result ApplyOutcome)
  unfolding apply_saved
  apply_change a change prepared = do
    saved ← call h (backup a.plan.revision.epoch prepared.plan.revision.generation)
    apply_saved a change prepared saved

  -- The policy may have changed where the configuration did not, so the spec is kept all the same.
  apply_noop : Active h → InstanceSpec → Tx h (Result ApplyOutcome)
  unfolding set_plan set_last_spec
  apply_noop a input = do
    set_plan a (record a.plan { source_spec = input })
    set_last_spec input
    return (ok (ApplyOutcome.noop a.plan.revision))

  apply_classified :
      Active h
      → InstanceSpec
      → Snapshot Document
      → PreparedApply h
      → Result (ConfigChange Patch)
      → Tx h (Result ApplyOutcome)
  unfolding apply_noop apply_change
  apply_classified a input snapshot prepared (ok ConfigChange.noop) = apply_noop a input
  apply_classified a input snapshot prepared (ok ConfigChange.switch) =
      switch_with_compensation h input snapshot
  apply_classified a input snapshot prepared (ok ConfigChange.reload) =
      apply_change a ConfigChange.reload prepared
  apply_classified a input snapshot prepared (ok (ConfigChange.patch p)) =
      apply_change a (ConfigChange.patch p) prepared
  apply_classified a input snapshot prepared (err error) = return (err error)

  apply_prepared :
      Active h
      → InstanceSpec
      → Snapshot Document
      → Result (PreparedApply h)
      → Tx h (Result ApplyOutcome)
  unfolding apply_classified
  apply_prepared a input snapshot (ok prepared) =
      apply_classified a input snapshot prepared (h.classify a.plan prepared.plan)
  apply_prepared a input snapshot (err error) = return (err error)

  apply_loaded : Active h → InstanceSpec → Result (Snapshot Document) → Tx h (Result ApplyOutcome)
  unfolding apply_prepared
  apply_loaded a input (ok snapshot) = do
    prepared ← prepare_apply h a input snapshot
    apply_prepared a input snapshot prepared
  apply_loaded a input (err error) = return (err error)

  apply_admitted : Active h → InstanceSpec → Tx h (Result ApplyOutcome)
  unfolding apply_loaded
  apply_admitted a input = do
    snapshot ← call h (load input.config_path)
    apply_loaded a input snapshot

  apply_matched :
      Active h → InstanceSpec → (expected : RevisionId) → Bool → Tx h (Result ApplyOutcome)
  unfolding apply_admitted
  apply_matched a input expected true = apply_admitted a input
  apply_matched a input expected false =
      return (err (Error.revision_conflict expected (some (revision_id a.plan.revision))))

  -- The comparison with the revision that the caller expects.
  apply_expected : Active h → InstanceSpec → Option RevisionId → Tx h (Result ApplyOutcome)
  unfolding apply_matched apply_admitted revision_id_eq
  apply_expected a input none = apply_admitted a input
  apply_expected a input (some expected) =
      apply_matched a input expected (revision_id_eq expected (revision_id a.plan.revision))

  apply_running : Bool → Active h → InstanceSpec → Option RevisionId → Tx h (Result ApplyOutcome)
  unfolding apply_expected
  apply_running true a input expected = apply_expected a input expected
  apply_running false a input expected = return (err Error.not_started)

  apply_to : Option (Active h) → InstanceSpec → Option RevisionId → Tx h (Result ApplyOutcome)
  unfolding apply_running
  apply_to none input expected = return (err Error.not_started)
  apply_to (some a) input expected = do
    status ← call h (observe a.instance)
    apply_running (not (is_ended status.state)) a input expected

  -- `apply_locked`.
  pub apply_locked : InstanceSpec → Option RevisionId → Tx h (Result ApplyOutcome)
  unfolding apply_to
  apply_locked input expected s = apply_to s.current input expected s
