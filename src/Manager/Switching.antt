-- ===== src/Manager/Switching.antt =====
-- Replacing the core that runs: `graceful_degrade_reason`, `switch_locked` from the resolved features
-- on, `hard_switch` and `graceful_switch` of crates/nyanpasu-core-manager/src/manager/switching.rs, with
-- `republish_retained` of manager/publish.rs.
pub mod Graceful
pub mod Outcomes
use clash_nyanpasu_service.Shared.{
  Bytes, codes, not, Bool, true, false, ◌&&◌, ◌||◌, Option, none, some, ◌++◌,
}
use clash_nyanpasu_service.Failure.{Epoch, Error}
use clash_nyanpasu_service.Control.Command.{CoreKind}
use clash_nyanpasu_service.Control.Execute.{InstanceSpec}
use clash_nyanpasu_service.Manager.Status.{CoreState, instance_core_state}
use clash_nyanpasu_service.Manager.Effects.{
  Result, ok, err, ◌>>=◌, ◌>>◌, return, EpochPlan, Snapshot, ResolvedFeatures, OverlapBlock, Host,
  observe, cleanup,
}
use clash_nyanpasu_service.Manager.Session.{
  Active, Session, Tx, Retired, nothing, retired, unproven, call, publish, publish_instance,
  next_epoch, retire_current,
}
use clash_nyanpasu_service.Manager.Prepare.{local_ipc_settings, prepare_launch_with_features}
use clash_nyanpasu_service.Manager.Launch.{fail_published, fail_stop, start_prepared}

pub data DegradeReason : Type 0 where
  not_running unsupported_kind dns_listen inbound_conflict patch_failed http_controller :
      DegradeReason

pub data SwitchOutcome : Type 0 where
  graceful : SwitchOutcome
  hard : DegradeReason → SwitchOutcome
  durability_uncertain : (outcome : SwitchOutcome) (warning : Bytes) → SwitchOutcome

is_mihomo : CoreKind → Bool
is_mihomo CoreKind.mihomo = true
is_mihomo _ = false

blocked : Option OverlapBlock → Option DegradeReason
blocked none = none
blocked (some OverlapBlock.dns_listen) = some dns_listen
blocked (some OverlapBlock.inbound_surface) = some inbound_conflict

degrade_kind : Bool → Option OverlapBlock → Option DegradeReason
unfolding blocked
degrade_kind true block = blocked block
degrade_kind false block = some unsupported_kind

-- `graceful_degrade_reason`.
pub graceful_degrade_reason :
    (local_controller : Bool) → CoreKind → Option OverlapBlock → Option DegradeReason
unfolding degrade_kind is_mihomo
graceful_degrade_reason true kind block = degrade_kind (is_mihomo kind) block
graceful_degrade_reason false kind block = some http_controller

pub with_switch_durability_warning : SwitchOutcome → Option Bytes → SwitchOutcome
with_switch_durability_warning outcome none = outcome
with_switch_durability_warning outcome (some warning) = durability_uncertain outcome warning

pub with_switch_durability_result : Result SwitchOutcome → Option Bytes → Result SwitchOutcome
unfolding with_switch_durability_warning
with_switch_durability_result (ok outcome) warning =
    ok (with_switch_durability_warning outcome warning)
with_switch_durability_result (err error) none = err error
with_switch_durability_result (err error) (some warning) =
    err (Error.durability_uncertain error warning)

-- The `expect` that a core runs, which panics; the caller has checked it.
pub running_expected : Error
running_expected = Error.process (codes "running checked by caller")

module _ (h : Host) where
  open h use {Document}

  republish : Option (Active h) → Tx h (Unit {0})
  republish none = return tt
  republish (some a) = do
    status ← call h (observe a.instance)
    publish_instance h a.instance (instance_core_state (h.epoch_of a.instance) status.state) a.plan

  -- `republish_retained`.
  pub republish_retained : Tx h (Unit {0})
  unfolding republish
  republish_retained s = republish s.current s

  -- A switch that ends with the old core in place.
  pub fail_retained : {A : Type 0} → Epoch → Error → Tx h (Result A)
  unfolding republish_retained
  fail_retained epoch error = do call h (cleanup epoch); republish_retained; return (err error)

  epoch_in : Option (Active h) → Option Epoch
  epoch_in none = none
  epoch_in (some a) = some (h.epoch_of a.instance)

  pub publish_switching : Epoch → EpochPlan Document → Tx h (Unit {0})
  unfolding epoch_in
  publish_switching epoch plan s =
      publish h (CoreState.switching (epoch_in s.current) epoch) (some plan) s

  hard_cleaned : EpochPlan Document → Result (Unit {0}) → Tx h (Result (Unit {0}))
  hard_cleaned plan (ok u) = start_prepared h plan
  hard_cleaned plan (err error) = fail_published h error

  hard_retired : Epoch → EpochPlan Document → Retired Document → Tx h (Result (Unit {0}))
  unfolding hard_cleaned running_expected
  hard_retired epoch plan nothing = return (err running_expected)
  hard_retired epoch plan (retired old) = do
    cleaned ← call h (cleanup old.revision.epoch)
    hard_cleaned plan cleaned
  hard_retired epoch plan (unproven old_epoch error) = do
    call h (cleanup epoch)
    fail_stop h old_epoch error

  hard_planned : Epoch → Result (EpochPlan Document) → Tx h (Result (Unit {0}))
  unfolding hard_retired fail_retained publish_switching
  hard_planned epoch (ok plan) = do
    publish_switching epoch plan
    old ← retire_current h
    hard_retired epoch plan old
  hard_planned epoch (err error) = fail_retained epoch error

  -- `hard_switch`.
  pub hard_switch : InstanceSpec → Snapshot Document → ResolvedFeatures → Tx h (Result (Unit {0}))
  unfolding hard_planned
  hard_switch spec snapshot resolved = do
    epoch ← next_epoch h
    plan ← prepare_launch_with_features h spec epoch snapshot resolved
    hard_planned epoch plan

  http_in : Option (Active h) → Bool
  http_in none = false
  http_in (some a) = h.has_http a.plan.effective_document

  -- Whether two controllers over HTTP would meet.
  http_listener : Option (Active h) → InstanceSpec → Snapshot Document → Bool
  unfolding http_in
  http_listener current spec snapshot =
      http_in current
      || (local_ipc_settings h spec).keep_http_controller && h.has_http snapshot.document

  -- Why the core in a slot cannot be replaced gracefully, if so.
  pub degrade_reason :
      InstanceSpec → Snapshot Document → ResolvedFeatures → Option (Active h) → Option DegradeReason
  unfolding http_listener graceful_degrade_reason
  degrade_reason spec snapshot resolved current =
      graceful_degrade_reason (resolved.local_ipc && not (http_listener current spec snapshot))
        spec.core.kind (h.overlap_block snapshot.document)
