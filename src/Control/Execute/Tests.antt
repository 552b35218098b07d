-- ===== src/Control/Execute/Tests.antt =====
-- Execution over a world that is one file.
use clash_nyanpasu_service.Shared.{
  ◌≡◌, ◌≢◌, refl, Bytes, codes, false, Option, none, some, [], ◌∷◌, ◌++◌, arith, bytes_eq,
  bytes_eq_refl, if◌then◌else◌,
}
use clash_nyanpasu_service.Failure.{CoreErrorKind, Error}
use clash_nyanpasu_service.Health.{HealthPolicy}
use clash_nyanpasu_service.Control.OperationId.{OperationId, hex}
use clash_nyanpasu_service.Control.Digest.{payload_digest}
use clash_nyanpasu_service.Control.Command.{
  mihomo, ConfigInput, ReconcileRequest, reconcile, stop, CoreError,
}
use clash_nyanpasu_service.Control.Plane.{fails}
use clash_nyanpasu_service.Control.Execute.{Environment, rejected, execute}
use clash_nyanpasu_service.Control.Execute.Outcomes.{
  Settles, execute-Settles, execute-digest_mismatch, execute-Delivers, Delivers,
}

abbrev File : Type 0
File = Option (Bytes × Bytes)

abbrev env : Environment File
env = record {
  stop_core = λ w. (w, some Error.not_started);
  recover_quarantine = λ w. (w, none);
  shut_manager = λ w. (w, none);
  reconcile_core = λ spec expected w. (w, rejected Error.controller_missing);
  create_dir_all = λ dir w. (w, none);
  write = λ path bytes w. (some (path, bytes), none);
  join_path = λ dir name. dir ++ (b'/' ∷ name);
  to_string = λ e. codes "failed";
}

read_file : Bytes → File → Option Bytes
read_file path none = none
read_file path (some (p, bytes)) = if bytes_eq p path then some bytes else none

abbrev id : OperationId
id = record { nanos = 1; pid = 7; counter = 0 }

abbrev health : HealthPolicy
health = record {
  interval = 250;
  timeout = 1000;
  failure_threshold = 3;
  success_threshold = 1;
  start_period = 0;
}

abbrev config : Option Bytes → ConfigInput
config digest = record { bytes = codes "port: 7890"; expected_digest = digest }

abbrev request : ReconcileRequest
request = record {
  core = record { kind = mihomo; binary_path = codes "/opt/mihomo"; version = none; features = [] };
  config = config (some []);
  options = record {
    local_ipc = none;
    startup_timeout = 30;
    health = health;
    restart_and_backoff = 0;
  };
  expected_applied = none;
}

abbrev unchecked : ReconcileRequest
unchecked = record request { config = config none }

execute-Settles_example :
    Settles id stop (execute env (codes "/src") (codes "/work") id stop none).1
execute-Settles_example = execute-Settles env (codes "/src") (codes "/work") id stop none

no_digest : [] ≢ payload_digest (codes "port: 7890")
unfolding payload_digest hex
no_digest e = absurd (ground arith)

execute-digest_mismatch_example :
    (error : CoreError) × (execute env (codes "/src") (codes "/work") id (reconcile request) none
      ≡ (none, fails error))
    × (error.kind ≡ some CoreErrorKind.invalid_config)
    × (error.retryable ≡ false)
execute-digest_mismatch_example =
    execute-digest_mismatch env (codes "/src") (codes "/work") id request [] none refl no_digest

read_back :
    (p bytes : Bytes) (v : File)
    → (env.write p bytes v).1 ≡ none
    → read_file p (env.write p bytes v).0 ≡ some bytes
unfolding read_file
read_back p bytes v h = rw (bytes_eq_refl p) refl

execute-Delivers_example :
    Delivers env read_file
      (codes "/src")
      (codes "/work")
      id
      (unchecked)
      none
      (execute env (codes "/src") (codes "/work") id (reconcile unchecked) none)
execute-Delivers_example =
    execute-Delivers env read_file (codes "/src") (codes "/work") id unchecked none read_back
