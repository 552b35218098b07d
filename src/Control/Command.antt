-- ===== src/Control/Command.antt =====
-- Commands, results and errors of the control plane: the types of
-- crates/nyanpasu-core-manager/src/control/mod.rs, with those of spec.rs, state.rs and manager/mod.rs
-- that they carry, and the identity digest of a command.
pub mod Identity
mod Tests
use clash_nyanpasu_service.Shared.{
  ℕ, Bytes, codes, Bool, true, false, Option, none, some, List, [], ◌∷◌, ◌++◌,
}
use clash_nyanpasu_service.Shared.Decimal.{decimal}
use clash_nyanpasu_service.Failure.{
  CoreErrorKind, Error, Epoch, RevisionId, kind, default_retryable,
}
use clash_nyanpasu_service.Health.{HealthPolicy}
use clash_nyanpasu_service.Control.OperationId.{OperationId}
use clash_nyanpasu_service.Control.Digest.{payload_digest}

pub data CoreKind : Type 0 where
  mihomo clash_rust clash_premium meow : CoreKind

-- `ClashCoreKind::as_ref`, which its `Display` writes.
pub kind_str : CoreKind → Bytes
kind_str mihomo = codes "mihomo"
kind_str clash_rust = codes "clash-rs"
kind_str clash_premium = codes "clash"
kind_str meow = codes "meow"

pub record CoreSpec : Type 0 where
  pub kind : CoreKind
  pub binary_path : Bytes
  pub version : Option Bytes
  pub features : List Bytes

pub data LocalIpcPolicy : Type 0 where
  force prefer disable : LocalIpcPolicy

pub record LocalIpcSettings : Type 0 where
  pub policy : LocalIpcPolicy
  pub keep_http_controller : Bool

-- The restart policy and the backoff are values of another crate; a number stands for the pair.
pub record InstanceOptions : Type 0 where
  pub local_ipc : Option LocalIpcSettings
  pub startup_timeout : ℕ
  pub health : HealthPolicy
  pub restart_and_backoff : ℕ

-- `ConfigInput::Inline`, the one variant.
pub record ConfigInput : Type 0 where
  pub bytes : Bytes
  pub expected_digest : Option Bytes

pub record ReconcileRequest : Type 0 where
  pub core : CoreSpec
  pub config : ConfigInput
  pub options : InstanceOptions
  pub expected_applied : Option RevisionId

pub data CoreCommand : Type 0 where
  reconcile : ReconcileRequest → CoreCommand
  stop recover shutdown : CoreCommand

pub record CoreCommandEnvelope : Type 0 where
  pub operation_id : OperationId
  pub command : CoreCommand

pub record ConfigRevision : Type 0 where
  pub epoch : Epoch
  pub generation : ℕ
  pub source_hash : Bytes
  pub effective_hash : Bytes
  pub runtime_path : Bytes

unfoldable pub revision_id : ConfigRevision → RevisionId
revision_id r = record {
  epoch = r.epoch;
  generation = r.generation;
  effective_hash = r.effective_hash;
}

-- The `Display` of a revision id.
pub display_revision : RevisionId → Bytes
display_revision r =
    codes "epoch "
    ++ (decimal r.epoch
        ++ (codes " generation "
            ++ (decimal r.generation ++ (codes " (" ++ (r.effective_hash ++ codes ")")))))

pub data ApplyOutcome : Type 0 where
  started noop patched reloaded restarted switched : (revision : ConfigRevision) → ApplyOutcome
  rolled_back : (revision : ConfigRevision) (failed_apply : Bytes) → ApplyOutcome
  durability_uncertain : (outcome : ApplyOutcome) (warning : Bytes) → ApplyOutcome

pub data OperationOutput : Type 0 where
  reconciled : ApplyOutcome → OperationOutput
  stopped recovered shut_down : OperationOutput

pub record CoreError : Type 0 where
  pub kind : Option CoreErrorKind
  pub message : Bytes
  pub retryable : Bool
  pub operation_id : Option OperationId

-- `CoreError::new(..).with_operation(..)`, the form in which the control plane raises its own errors.
abbrev pub new_error : CoreErrorKind → Bytes → Bool → OperationId → CoreError
new_error k message retryable id = record {
  kind = some k;
  message = message;
  retryable = retryable;
  operation_id = some id;
}

retryable_kind : Option CoreErrorKind → Bool
retryable_kind none = false
retryable_kind (some k) = default_retryable k

-- `CoreError::from_domain`; `to_string` is the generated `Display` of `Error`.
unfoldable pub from_domain : (Error → Bytes) → Error → Option OperationId → CoreError
unfolding retryable_kind
from_domain to_string error operation_id = record {
  kind = kind error;
  message = to_string error;
  retryable = retryable_kind (kind error);
  operation_id = operation_id;
}

pub data OperationState : Type 0 where
  queued running : OperationState
  succeeded : OperationOutput → OperationState
  failed : CoreError → OperationState

-- `is_terminal` of control/executor.rs.
unfoldable pub is_terminal : OperationState → Bool
is_terminal (succeeded o) = true
is_terminal (failed e) = true
is_terminal _ = false

or_empty : Option Bytes → Bytes
or_empty none = []
or_empty (some t) = t

feature_bytes : List Bytes → Bytes
feature_bytes [] = []
feature_bytes (f ∷ fs) = f ++ 0 ∷ feature_bytes fs

revision_bytes : Option RevisionId → Bytes
revision_bytes none = []
revision_bytes (some r) = display_revision r

policy_str : LocalIpcPolicy → Bytes
policy_str force = codes "Force"
policy_str prefer = codes "Prefer"
policy_str disable = codes "Disable"

bool_str : Bool → Bytes
bool_str true = codes "true"
bool_str false = codes "false"

-- The derived `Debug` of the optional controller settings.
debug_local_ipc : Option LocalIpcSettings → Bytes
debug_local_ipc none = codes "None"
debug_local_ipc (some s) =
    codes "Some(LocalIpcSettings { policy: "
    ++ (policy_str s.policy
        ++ (codes ", keep_http_controller: " ++ (bool_str s.keep_http_controller ++ codes " })")))

-- What the digest of a reconcile reads before the configuration.
request_identity : ReconcileRequest → Bytes
request_identity r =
    codes "reconcile"
    ++ 0
      ∷ (kind_str r.core.kind
          ++ 0
            ∷ (r.core.binary_path
                ++ 0
                  ∷ (or_empty r.core.version
                      ++ 0
                        ∷ (feature_bytes r.core.features
                            ++ (revision_bytes r.expected_applied
                                ++ 0
                                  ∷ (codes "controller:"
                                      ++ (debug_local_ipc r.options.local_ipc ++ 0 ∷ [])))))))

pub identity : CoreCommand → Bytes
unfolding request_identity or_empty
identity (reconcile r) =
    request_identity r
    ++ (r.config.bytes ++ 0 ∷ (codes "digest:" ++ or_empty r.config.expected_digest))
identity stop = codes "stop"
identity recover = codes "recover"
identity shutdown = codes "shutdown"

-- `CoreCommand::payload_digest`.
unfoldable pub command_digest : CoreCommand → Bytes
command_digest c = payload_digest (identity c)
