-- ===== src/Manager/Status.antt =====
-- The published status: the types of crates/nyanpasu-core-manager/src/state.rs, and what
-- crates/nyanpasu-core-manager/src/manager/publish.rs does to a status. The clock is read by the caller,
-- as `now`; an instance id is a number, and the sets of capabilities and features are lists of texts.
pub mod Updates
mod Tests
use native.Mathlib.Decide.{ℕ_discrete}
use clash_nyanpasu_service.Shared.{
  ℕ, ◌==◌, Bytes, Bool, true, false, not, ◌&&◌, ◌||◌, Option, none, some, List, [], ◌∷◌,
  if◌then◌else◌,
}
use clash_nyanpasu_service.Failure.{Epoch}
use clash_nyanpasu_service.Control.Command.{CoreKind, ConfigRevision}

pub data HealthState : Type 0 where
  starting healthy unhealthy : HealthState

pub record HealthStatus : Type 0 where
  pub state : HealthState
  pub changed_at : ℕ
  pub consecutive_failures : ℕ
  pub last_error : Option Bytes
  pub last_success_at : Option ℕ

pub data StopReason : Type 0 where
  finished user : StopReason
  error : Bytes → StopReason

pub data InstanceState : Type 0 where
  starting : InstanceState
  running : (pid : ℕ) → InstanceState
  restarting : (attempt : ℕ) → InstanceState
  stopping : InstanceState
  stopped : StopReason → InstanceState

pub record InstanceStatus : Type 0 where
  pub instance_id : Option ℕ
  pub state : InstanceState
  pub health : Option HealthStatus

pub data CoreState : Type 0 where
  stopped : (reason : Option StopReason) → CoreState
  starting : Epoch → CoreState
  running : Epoch → (pid : ℕ) → CoreState
  restarting : Epoch → (attempt : ℕ) → CoreState
  switching : (from : Option Epoch) → (to : Epoch) → CoreState
  stopping : Epoch → CoreState

pub record SpecSummary : Type 0 where
  pub kind : CoreKind
  pub config_path : Bytes
  pub capabilities : List Bytes
  pub runtime_features : List Bytes

pub record CoreStatus : Type 0 where
  pub state : CoreState
  pub instance_id : Option ℕ
  pub health : Option HealthStatus
  pub spec : Option SpecSummary
  pub controller : Option Bytes
  pub revision : Option ConfigRevision
  pub changed_at : ℕ

pub core_state_discrete : Discrete CoreState
core_state_discrete = hlevel (ℕ_discrete)

pub health_discrete : Discrete (Option HealthStatus)
health_discrete = hlevel (ℕ_discrete)

pub id_discrete : Discrete (Option ℕ)
id_discrete = hlevel (ℕ_discrete)

-- A decision as a Boolean.
abbrev pub decided {ℓ} : {A : Type ℓ} → Dec A → Bool
decided d = elim d [ yes p ↦ true | no p ↦ false ]

-- `instance_core_state`.
pub instance_core_state : Epoch → InstanceState → CoreState
instance_core_state epoch InstanceState.starting = CoreState.starting epoch
instance_core_state epoch (InstanceState.running pid) = CoreState.running epoch pid
instance_core_state epoch (InstanceState.restarting attempt) = CoreState.restarting epoch attempt
instance_core_state epoch InstanceState.stopping = CoreState.stopping epoch
instance_core_state epoch (InstanceState.stopped reason) = CoreState.stopped (some reason)

pub epoch_is : Option ConfigRevision → Epoch → Bool
epoch_is none epoch = false
epoch_is (some r) epoch = r.epoch == epoch

-- The part of `apply_epoch_status` behind its three comparisons.
merge :
    (lifecycle_changed health_changed same_instance : Bool)
    → CoreStatus
    → CoreState
    → InstanceStatus
    → ℕ
    → CoreStatus × Bool
merge lifecycle_changed health_changed same_instance status state instance_status now =
    if not lifecycle_changed && not health_changed && same_instance then (status, false) else (
      record status {
        state = state;
        health = instance_status.health;
        instance_id = instance_status.instance_id;
        changed_at = if lifecycle_changed then now else status.changed_at;
      },
      true,
    )

-- The part behind its test of the epoch, on the state that it computes.
refresh : CoreStatus → CoreState → InstanceStatus → ℕ → CoreStatus × Bool
unfolding merge
refresh status state instance_status now =
    merge (not (decided (core_state_discrete status.state state)))
      (not (decided (health_discrete status.health instance_status.health)))
      (decided (id_discrete status.instance_id instance_status.instance_id)) status state
      instance_status now

-- `apply_epoch_status`: the status afterwards, and whether it is sent to the subscribers.
pub apply_epoch_status : CoreStatus → Epoch → InstanceStatus → ℕ → CoreStatus × Bool
unfolding refresh epoch_is instance_core_state
apply_epoch_status status epoch instance_status now =
    if epoch_is status.revision epoch
    then refresh status (instance_core_state epoch instance_status.state) instance_status now
    else (status, false)

-- The health state that a lifecycle state stands for.
pub target : CoreState → Option HealthState
target (CoreState.starting epoch) = some HealthState.starting
target (CoreState.restarting epoch attempt) = some HealthState.starting
target (CoreState.switching from to) = some HealthState.starting
target (CoreState.running epoch pid) = some HealthState.healthy
target (CoreState.stopping epoch) = none
target (CoreState.stopped reason) = none

is_health : HealthState → HealthState → Bool
is_health HealthState.starting HealthState.starting = true
is_health HealthState.healthy HealthState.healthy = true
is_health HealthState.unhealthy HealthState.unhealthy = true
is_health _ _ = false

pub fresh_health : HealthState → ℕ → HealthStatus
fresh_health state now = record {
  state = state;
  changed_at = now;
  consecutive_failures = 0;
  last_error = none;
  last_success_at = none;
}

carry : HealthState → ℕ → Option HealthStatus → HealthStatus
carry state now none = fresh_health state now
carry state now (some previous) =
    if is_health previous.state state
    then record previous { state = state }
    else fresh_health state now

-- `default_health_for_state`.
pub default_health_for_state : Option HealthStatus → CoreState → ℕ → Option HealthStatus
unfolding target carry fresh_health is_health
default_health_for_state previous state now = elim (target state) [
  | none ↦ none
  | some health ↦ some (carry health now previous)
]
