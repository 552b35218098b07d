-- ===== src/Control/Command/Tests.antt =====
-- Two requests that the digest does not tell apart: one declares no digest, the other an empty one.
use clash_nyanpasu_service.Shared.{◌≡◌, refl, Option, none, some, Bytes, codes, []}
use clash_nyanpasu_service.Health.{HealthPolicy}
use clash_nyanpasu_service.Control.Command.{
  mihomo, ReconcileRequest, reconcile, identity, request_identity, or_empty,
}

abbrev health : HealthPolicy
health = record {
  interval = 250;
  timeout = 1000;
  failure_threshold = 3;
  success_threshold = 1;
  start_period = 0;
}

abbrev declaring : Option Bytes → ReconcileRequest
declaring digest = record {
  core = record { kind = mihomo; binary_path = codes "/opt/mihomo"; version = none; features = [] };
  config = record { bytes = codes "port: 7890"; expected_digest = digest };
  options = record {
    local_ipc = none;
    startup_timeout = 30;
    health = health;
    restart_and_backoff = 0;
  };
  expected_applied = none;
}

same_identity : identity (reconcile (declaring none)) ≡ identity (reconcile (declaring (some [])))
unfolding identity or_empty request_identity
same_identity = refl
