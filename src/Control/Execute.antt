-- ===== src/Control/Execute.antt =====
-- What the executor runs: `execute`, `reconcile` and `materialize` of
-- crates/nyanpasu-core-manager/src/control/executor.rs. The manager and the file system work on a
-- world; the manager's methods are parameters, and a failed file operation gives its text.
pub mod Outcomes
mod Tests
use clash_nyanpasu_service.Shared.{
  Bytes, codes, bytes_eq, Option, none, some, List, ◌∷◌, ◌++◌, Bool, true, false, if◌then◌else◌,
}
use clash_nyanpasu_service.Failure.{CoreErrorKind, Error, RevisionId}
use clash_nyanpasu_service.Control.OperationId.{OperationId}
use clash_nyanpasu_service.Control.Digest.{payload_digest}
use clash_nyanpasu_service.Control.Command.{
  CoreSpec, InstanceOptions, ConfigInput, ReconcileRequest, CoreCommand, reconcile, stop, recover,
  shutdown, ApplyOutcome, OperationOutput, reconciled, stopped, recovered, shut_down, CoreError,
  new_error, from_domain,
}
use clash_nyanpasu_service.Control.Plane.{Outcome, completes, fails}

pub record InstanceSpec : Type 0 where
  pub core : CoreSpec
  pub config_path : Bytes
  pub working_dir : Bytes
  pub pid_file : Option Bytes
  pub options : InstanceOptions

pub data Reconciled : Type 0 where
  applied : ApplyOutcome → Reconciled
  rejected : Error → Reconciled

pub data Materialized : Type 0 where
  written : (path : Bytes) → Materialized
  refused : CoreError → Materialized

-- The manager's methods, those of the file system, and the `Display` of `Error`.
pub record Environment (World : Type 0) : Type 0 where
  pub stop_core : World → World × Option Error
  pub recover_quarantine : World → World × Option Error
  pub shut_manager : World → World × Option Error
  pub reconcile_core : InstanceSpec → Option RevisionId → World → World × Reconciled
  pub create_dir_all : Bytes → World → World × Option Bytes
  pub write : Bytes → Bytes → World → World × Option Bytes
  pub join_path : Bytes → Bytes → Bytes
  pub to_string : Error → Bytes

mismatch_error : Bytes → Bytes → OperationId → CoreError
mismatch_error declared computed id =
    new_error CoreErrorKind.invalid_config
      (codes "config digest mismatch: declared " ++ (declared ++ (codes ", computed " ++ computed)))
      false id

module _ {World : Type 0} (env : Environment World) where
  domain : OperationId → Error → CoreError
  domain id error = from_domain env.to_string error (some id)

  stored : Bytes → OperationId → World × Option Bytes → World × Materialized
  unfolding domain
  stored path id (w, none) = (w, written path)
  stored path id (w, some error) = (w, refused (domain id (Error.io error)))

  store : Bytes → Bytes → Bytes → OperationId → World × Option Bytes → World × Materialized
  unfolding stored domain
  store dir file_name bytes id (w, none) =
      let path = env.join_path dir file_name in stored path id (env.write path bytes w)
  store dir file_name bytes id (w, some error) = (w, refused (domain id (Error.io error)))

  place : Bytes → Bytes → Bytes → OperationId → World → World × Materialized
  unfolding store
  place dir file_name bytes id w = store dir file_name bytes id (env.create_dir_all dir w)

  -- `materialize`.
  pub materialize : Bytes → Bytes → ConfigInput → OperationId → World → World × Materialized
  unfolding place mismatch_error
  materialize dir file_name config id w = elim config.expected_digest [
    | none ↦ place dir file_name config.bytes id w
    | some declared ↦
        if bytes_eq declared (payload_digest config.bytes)
        then place dir file_name config.bytes id w
        else (w, refused (mismatch_error declared (payload_digest config.bytes) id))
  ]

  reconcile_outcome : OperationId → World × Reconciled → World × Outcome
  unfolding domain
  reconcile_outcome id (w, applied outcome) = (w, completes (reconciled outcome))
  reconcile_outcome id (w, rejected error) = (w, fails (domain id error))

  instance_spec : ReconcileRequest → Bytes → Bytes → InstanceSpec
  instance_spec r path dir = record {
    core = r.core;
    config_path = path;
    working_dir = dir;
    pid_file = none;
    options = r.options;
  }

  reconcile_written :
      (working_dir : Bytes)
      → OperationId
      → ReconcileRequest
      → World × Materialized
      → World × Outcome
  unfolding reconcile_outcome instance_spec
  reconcile_written working_dir id r (w, refused error) = (w, fails error)
  reconcile_written working_dir id r (w, written path) =
      reconcile_outcome id
        (env.reconcile_core (instance_spec r path working_dir) r.expected_applied w)

  -- `reconcile`.
  pub reconcile_request :
      (source_dir working_dir : Bytes) → OperationId → ReconcileRequest → World → World × Outcome
  unfolding reconcile_written
  reconcile_request source_dir working_dir id r w =
      reconcile_written working_dir id r
        (materialize source_dir (codes "reconcile-source.yaml") r.config id w)

  unit_outcome : OperationId → OperationOutput → World × Option Error → World × Outcome
  unfolding domain
  unit_outcome id output (w, none) = (w, completes output)
  unit_outcome id output (w, some error) = (w, fails (domain id error))

  -- `execute`.
  pub execute :
      (source_dir working_dir : Bytes) → OperationId → CoreCommand → World → World × Outcome
  unfolding unit_outcome
  execute source_dir working_dir id (reconcile r) w =
      reconcile_request source_dir working_dir id r w
  execute source_dir working_dir id stop w = unit_outcome id stopped (env.stop_core w)
  execute source_dir working_dir id recover w = unit_outcome id recovered (env.recover_quarantine w)
  execute source_dir working_dir id shutdown w = unit_outcome id shut_down (env.shut_manager w)
