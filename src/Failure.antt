-- ===== src/Failure.antt =====
-- Failures: `CoreErrorKind` of crates/nyanpasu-core-metadata/src/error_kind.rs, and `Error` with its
-- classification, of crates/nyanpasu-core-manager/src/error.rs. A foreign error that `Error` wraps is
-- carried as the text that it displays.
pub mod Wire
pub mod Classify
mod Tests
use clash_nyanpasu_service.Shared.{
  ℕ, Bytes, codes, bytes_eq, Bool, true, false, Option, none, some, List, [], ◌∷◌, if◌then◌else◌,
}

pub data CoreErrorKind : Type 0 where
  not_started already_running revision_conflict quarantined : CoreErrorKind
  config_check_failed config_not_found binary_not_found invalid_config : CoreErrorKind
  controller_missing apply_failed apply_rollback_failed stop_unconfirmed : CoreErrorKind
  shutting_down queue_full operation_conflict backend_unavailable internal : CoreErrorKind

-- `CoreErrorKind::ALL`.
all_kinds : List CoreErrorKind
all_kinds =
    CoreErrorKind.not_started ∷ CoreErrorKind.already_running ∷ CoreErrorKind.revision_conflict
    ∷ CoreErrorKind.quarantined ∷ CoreErrorKind.config_check_failed ∷ CoreErrorKind.config_not_found
    ∷ CoreErrorKind.binary_not_found ∷ CoreErrorKind.invalid_config
    ∷ CoreErrorKind.controller_missing ∷ CoreErrorKind.apply_failed
    ∷ CoreErrorKind.apply_rollback_failed ∷ CoreErrorKind.stop_unconfirmed
    ∷ CoreErrorKind.shutting_down ∷ CoreErrorKind.queue_full ∷ CoreErrorKind.operation_conflict
    ∷ CoreErrorKind.backend_unavailable ∷ CoreErrorKind.internal ∷ []

pub as_str : CoreErrorKind → Bytes
unfolding codes
as_str CoreErrorKind.not_started = codes "not_started"
as_str CoreErrorKind.already_running = codes "already_running"
as_str CoreErrorKind.revision_conflict = codes "revision_conflict"
as_str CoreErrorKind.quarantined = codes "quarantined"
as_str CoreErrorKind.config_check_failed = codes "config_check_failed"
as_str CoreErrorKind.config_not_found = codes "config_not_found"
as_str CoreErrorKind.binary_not_found = codes "binary_not_found"
as_str CoreErrorKind.invalid_config = codes "invalid_config"
as_str CoreErrorKind.controller_missing = codes "controller_missing"
as_str CoreErrorKind.apply_failed = codes "apply_failed"
as_str CoreErrorKind.apply_rollback_failed = codes "apply_rollback_failed"
as_str CoreErrorKind.stop_unconfirmed = codes "stop_unconfirmed"
as_str CoreErrorKind.shutting_down = codes "shutting_down"
as_str CoreErrorKind.queue_full = codes "queue_full"
as_str CoreErrorKind.operation_conflict = codes "operation_conflict"
as_str CoreErrorKind.backend_unavailable = codes "backend_unavailable"
as_str CoreErrorKind.internal = codes "internal"

unfoldable pub default_retryable : CoreErrorKind → Bool
default_retryable CoreErrorKind.queue_full = true
default_retryable CoreErrorKind.backend_unavailable = true
default_retryable _ = false

-- `iter().copied().find(|kind| kind.as_str() == value)`.
find_kind : Bytes → List CoreErrorKind → Option CoreErrorKind
find_kind value [] = none
find_kind value (k ∷ ks) = if bytes_eq (as_str k) value then some k else find_kind value ks

pub from_wire : Bytes → Option CoreErrorKind
from_wire value = find_kind value all_kinds

-- An epoch is a `NonZeroU64`; a value of it is a number that is not 0.
abbrev pub Epoch : Type 0
Epoch = ℕ

pub record RevisionId : Type 0 where
  pub epoch : Epoch
  pub generation : ℕ
  pub effective_hash : Bytes

pub data Error : Type 0 where
  already_running not_started : Error
  config_not_found binary_not_found : Bytes → Error
  core_version_probe_failed : (binary_path detail : Bytes) → Error
  controller_missing : Error
  required_local_ipc_unsupported : (kind version : Bytes) → Error
  config_check_failed invalid_config invalid_manager_options invalid_health_policy : Bytes → Error
  unsafe_runtime_artifact runtime_directory_owned stop_unconfirmed : Bytes → Error
  manager_quarantined : (epoch : Epoch) (reason : Bytes) → Error
  revision_conflict : (expected : RevisionId) (actual : Option RevisionId) → Error
  apply_failed : Bytes → Error
  apply_rollback_failed : (apply rollback : Bytes) → Error
  durability_uncertain : (source : Error) (warning : Bytes) → Error
  startup_timeout startup_failed : (stderr_tail : Bytes) → Error
  process api yaml io : Bytes → Error

unfoldable pub kind : Error → Option CoreErrorKind
kind Error.already_running = some CoreErrorKind.already_running
kind Error.not_started = some CoreErrorKind.not_started
kind (Error.config_not_found p) = some CoreErrorKind.config_not_found
kind (Error.binary_not_found p) = some CoreErrorKind.binary_not_found
kind Error.controller_missing = some CoreErrorKind.controller_missing
kind (Error.config_check_failed m) = some CoreErrorKind.config_check_failed
kind (Error.invalid_config m) = some CoreErrorKind.invalid_config
kind (Error.yaml m) = some CoreErrorKind.invalid_config
kind (Error.stop_unconfirmed m) = some CoreErrorKind.stop_unconfirmed
kind (Error.manager_quarantined e r) = some CoreErrorKind.quarantined
kind (Error.revision_conflict e a) = some CoreErrorKind.revision_conflict
kind (Error.apply_failed m) = some CoreErrorKind.apply_failed
kind (Error.apply_rollback_failed a r) = some CoreErrorKind.apply_rollback_failed
kind (Error.durability_uncertain source w) = kind source
kind (Error.core_version_probe_failed p d) = none
kind (Error.required_local_ipc_unsupported k v) = none
kind (Error.invalid_manager_options m) = none
kind (Error.invalid_health_policy m) = none
kind (Error.unsafe_runtime_artifact p) = none
kind (Error.runtime_directory_owned p) = none
kind (Error.startup_timeout t) = none
kind (Error.startup_failed t) = none
kind (Error.process e) = none
kind (Error.api e) = none
kind (Error.io e) = none
