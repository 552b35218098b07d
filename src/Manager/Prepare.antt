-- ===== src/Manager/Prepare.antt =====
-- What a transaction prepares before it touches a core: `validate_launchable`, `prepare_launch`,
-- `prepare_launch_with_features` and `prepare_graceful` of
-- crates/nyanpasu-core-manager/src/manager/switching.rs, `prepare_apply` of manager/apply.rs, and
-- `resolve_features` of manager/mod.rs. A warning that is only logged is left out.
pub mod Epochs
use clash_nyanpasu_service.Shared.{
  ℕ, ◌+◌, Bytes, codes, Bool, true, false, not, ◌&&◌, ◌||◌, Option, none, some, if◌then◌else◌,
  bytes_eq,
}
use clash_nyanpasu_service.Failure.{Epoch, Error}
use clash_nyanpasu_service.Control.Command.{LocalIpcPolicy, LocalIpcSettings}
use clash_nyanpasu_service.Control.Execute.{InstanceSpec}
use clash_nyanpasu_service.Manager.Effects.{
  Result, ok, err, EpochPlan, Snapshot, ResolvedFeatures, ResolvedController, Prepared, Host,
  binary_found, run_args, check_config, resolve, prepare_full, prepare_bootstrap, stage, commit_new,
}
use clash_nyanpasu_service.Manager.Fallible.{◌>>=◌, ◌>>◌, return, throw, lift, rely}
use clash_nyanpasu_service.Manager.Session.{Tx, Active, call}

-- The policy that is asked for on a host that cannot give local IPC, and on one that can.
offered_policy : (available : Bool) → LocalIpcPolicy → Result LocalIpcPolicy
offered_policy true policy = ok policy
offered_policy false LocalIpcPolicy.force =
    err (Error.invalid_manager_options (codes "the host cannot authorize local IPC"))
offered_policy false _ = ok LocalIpcPolicy.disable

access_available : Option Bool → Bool
access_available none = true
access_available (some supports) = supports

settings_or : LocalIpcSettings → Option LocalIpcSettings → LocalIpcSettings
settings_or settings none = settings
settings_or settings (some own) = own

secret_eq : Option Bytes → Option Bytes → Bool
secret_eq none none = true
secret_eq (some a) (some b) = bytes_eq a b
secret_eq _ _ = false

controller_eq : ResolvedController → ResolvedController → Bool
unfolding secret_eq
controller_eq a b = bytes_eq a.host b.host && secret_eq a.secret b.secret

same_controller : Bool → Result (Unit {0})
same_controller true = ok tt
same_controller false =
    err (Error.invalid_config (codes "full and bootstrap configs resolved different controllers"))

-- The plan that the three prepare steps build.
plan_of :
    {D : Type 0}
    → (pid_path : Bytes) → InstanceSpec
    → Snapshot D
    → ResolvedFeatures
    → Prepared D
    → Epoch
    → (generation : ℕ) → (runtime_path : Bytes) → EpochPlan D
plan_of pid_path spec snapshot resolved prepared epoch generation runtime_path = record {
  source_spec = spec;
  effective_spec = record spec { config_path = runtime_path; pid_file = some pid_path };
  controller = prepared.controller;
  revision = record {
    epoch = epoch;
    generation = generation;
    source_hash = prepared.source_hash;
    effective_hash = prepared.effective_hash;
    runtime_path = runtime_path;
  };
  capabilities = resolved.capabilities;
  runtime_features = resolved.runtime;
  source_document = snapshot.document;
  effective_document = prepared.document;
}

module _ (h : Host) where
  open h use {Document, Patch}

  -- `PreparedApply`.
  pub record PreparedApply : Type 0 where
    pub plan : EpochPlan Document
    pub staged : Bytes

  -- `PreparedGraceful`.
  pub record PreparedGraceful : Type 0 where
    pub plan : EpochPlan Document
    pub full_staged : Bytes
    pub restoration : Option Patch

  pub local_ipc_settings : InstanceSpec → LocalIpcSettings
  unfolding settings_or
  local_ipc_settings spec = settings_or h.default_settings spec.options.local_ipc

  -- The kind's arguments are asked for where the binary is found.
  launchable : InstanceSpec → Bool → Tx h (Result (Unit {0}))
  launchable spec true = call h (run_args spec)
  launchable spec false = throw (Error.binary_not_found spec.core.binary_path)

  -- `validate_launchable`.
  pub validate_launchable : InstanceSpec → Tx h (Result (Unit {0}))
  unfolding launchable
  validate_launchable spec = do
    found ← lift (call h (binary_found spec.core.binary_path))
    launchable spec found

  -- `resolve_features` of the manager.
  pub resolve_features : InstanceSpec → Tx h (Result ResolvedFeatures)
  unfolding offered_policy access_available local_ipc_settings
  resolve_features spec = do
    policy ← rely (offered_policy (access_available h.access) (local_ipc_settings spec).policy)
    call h (resolve spec policy)

  -- `prepare_launch_with_features`.
  pub prepare_launch_with_features :
      InstanceSpec
      → Epoch
      → Snapshot Document
      → ResolvedFeatures
      → Tx h (Result (EpochPlan Document))
  unfolding local_ipc_settings plan_of
  prepare_launch_with_features spec epoch snapshot resolved = do
    prepared ← call h (prepare_full snapshot epoch resolved (local_ipc_settings spec))
    staged ← call h (stage epoch prepared.bytes)
    call h (check_config (record spec { config_path = staged }))
    runtime_path ← call h (commit_new staged epoch)
    return (plan_of (h.pid_path epoch) spec snapshot resolved prepared epoch 1 runtime_path)

  -- `prepare_launch`.
  pub prepare_launch : InstanceSpec → Epoch → Snapshot Document → Tx h (Result (EpochPlan Document))
  unfolding validate_launchable resolve_features prepare_launch_with_features
  prepare_launch spec epoch snapshot = do
    validate_launchable spec
    resolved ← resolve_features spec
    prepare_launch_with_features spec epoch snapshot resolved

  -- `prepare_apply`: the next generation of the epoch in place.
  pub prepare_apply : Active h → InstanceSpec → Snapshot Document → Tx h (Result PreparedApply)
  unfolding validate_launchable resolve_features local_ipc_settings plan_of
  prepare_apply current input snapshot = do
    validate_launchable input
    resolved ← resolve_features input
    prepared ←
        call h
          (prepare_full snapshot current.plan.revision.epoch resolved (local_ipc_settings input))
    staged ← call h (stage current.plan.revision.epoch prepared.bytes)
    call h (check_config (record input { config_path = staged }))
    return (record {
      plan =
          plan_of (h.pid_path current.plan.revision.epoch) input snapshot resolved prepared
            current.plan.revision.epoch (current.plan.revision.generation + 1)
            current.plan.revision.runtime_path;
      staged = staged;
    })

  -- `prepare_graceful`: the full configuration is staged, and a bootstrap one is committed.
  pub prepare_graceful :
      InstanceSpec → Epoch → Snapshot Document → ResolvedFeatures → Tx h (Result PreparedGraceful)
  unfolding local_ipc_settings plan_of same_controller controller_eq
  prepare_graceful spec epoch snapshot resolved = do
    full ← call h (prepare_full snapshot epoch resolved (local_ipc_settings spec))
    bootstrap ← call h (prepare_bootstrap snapshot epoch resolved (local_ipc_settings spec))
    rely (same_controller (controller_eq full.controller bootstrap.controller))
    restoration ← rely (h.restoration bootstrap full)
    full_staged ← call h (stage epoch full.bytes)
    call h (check_config (record spec { config_path = full_staged }))
    bootstrap_staged ← call h (stage epoch bootstrap.bytes)
    call h (check_config (record spec { config_path = bootstrap_staged }))
    runtime_path ← call h (commit_new bootstrap_staged epoch)
    return (record {
      plan = plan_of (h.pid_path epoch) spec snapshot resolved full epoch 1 runtime_path;
      full_staged = full_staged;
      restoration = restoration;
    })
