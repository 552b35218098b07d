-- ===== src/Health.antt =====
-- Health policy and transition tracking: crates/nyanpasu-core-manager/src/health/mod.rs. Durations and
-- instants are numbers of one unit, an instant counted from a common origin; `u32` counters saturate.
pub mod Tracker
pub mod Streaks
pub mod Detail
mod Tests
use clash_nyanpasu_service.Shared.{
  ℕ, zero, suc, ◌+◌, ◌-◌, ◌^◌, ◌≤◌, ◌<◌, Bytes, codes, Bool, true, false, ◌&&◌, ◌||◌, not, Option,
  none, some, List, [], ◌∷◌, if◌then◌else◌, leb, ltb, ◌==◌, length, take, drop, min,
}

pub record HealthPolicy : Type 0 where
  pub interval : ℕ
  pub timeout : ℕ
  pub failure_threshold : ℕ
  pub success_threshold : ℕ
  pub start_period : ℕ

-- Both thresholds are `NonZeroU32`.
pub record HealthThresholds : Type 0 where
  pub failure : ℕ
  pub success : ℕ

pub record HealthPolicySpec : Type 0 where
  pub interval : ℕ
  pub timeout : ℕ
  pub thresholds : HealthThresholds
  pub start_period : ℕ

pub data PolicyError : Type 0 where
  zero_interval zero_timeout : PolicyError

pub data PolicyResult : Type 0 where
  ok : HealthPolicy → PolicyResult
  err : PolicyError → PolicyResult

-- `HealthPolicy::new`; the two texts of `InvalidHealthPolicy` are the two errors.
pub new_policy : HealthPolicySpec → PolicyResult
new_policy spec =
    if spec.interval == 0
    then err zero_interval
    else if spec.timeout == 0
    then err zero_timeout
    else ok (record {
      interval = spec.interval;
      timeout = spec.timeout;
      failure_threshold = spec.thresholds.failure;
      success_threshold = spec.thresholds.success;
      start_period = spec.start_period;
    })

-- `HealthPolicy::default`, in milliseconds.
pub default_policy : HealthPolicy
default_policy = record {
  interval = 250;
  timeout = 1000;
  failure_threshold = 3;
  success_threshold = 1;
  start_period = 0;
}

pub data TrackerState : Type 0 where
  starting healthy unhealthy : TrackerState

pub TrackerState-discrete : Discrete TrackerState
TrackerState-discrete = hlevel

unfoldable pub state_eq : TrackerState → TrackerState → Bool
state_eq starting starting = true
state_eq healthy healthy = true
state_eq unhealthy unhealthy = true
state_eq _ _ = false

pub record TrackerUpdate : Type 0 where
  pub state : TrackerState
  pub transitioned : Bool
  pub consecutive_failures : ℕ
  pub last_error : Option Bytes

pub record HealthTracker : Type 0 where
  pub policy : HealthPolicy
  pub started_at : ℕ
  pub grace_ended : Bool
  pub state : TrackerState
  pub consecutive_failures : ℕ
  pub consecutive_successes : ℕ
  pub last_error : Option Bytes

pub data ProbeResult : Type 0 where
  healthy : ProbeResult
  unhealthy : (detail : Option Bytes) → ProbeResult

pub new_tracker : HealthPolicy → ℕ → HealthTracker
new_tracker policy started_at = record {
  policy = policy;
  started_at = started_at;
  grace_ended = false;
  state = TrackerState.starting;
  consecutive_failures = 0;
  consecutive_successes = 0;
  last_error = none;
}

abbrev pub u32_max : ℕ
u32_max = 4294967295

-- `u32::saturating_add(1)`.
pub saturating_suc : ℕ → ℕ
saturating_suc n = if ltb n u32_max then n + 1 else u32_max

abbrev pub max_last_error_bytes : ℕ
max_last_error_bytes = 512

-- A byte that starts a character: not of the form 0b10xxxxxx.
pub is_char_start : ℕ → Bool
is_char_start b = ltb b 128 || leb 192 b

-- `str::is_char_boundary`: the end of the text, or the place of a byte that starts a character.
pub is_char_boundary : Bytes → ℕ → Bool
is_char_boundary [] zero = true
is_char_boundary [] (suc i) = false
is_char_boundary (b ∷ bs) zero = is_char_start b
is_char_boundary (b ∷ bs) (suc i) = is_char_boundary bs i

-- `while !detail.is_char_boundary(end) { end -= 1; }`; a text's first byte starts a character, so the
-- loop ends at 0 at the latest.
pub boundary_below : Bytes → ℕ → ℕ
boundary_below detail zero = zero
boundary_below detail (suc i) =
    let lower = boundary_below detail i in if is_char_boundary detail (suc i) then suc i else lower

pub cap_detail : Bytes → Bytes
cap_detail detail =
    if leb (length detail) max_last_error_bytes
    then detail
    else take (boundary_below detail max_last_error_bytes) detail

pub cap_optional : Option Bytes → Option Bytes
cap_optional none = none
cap_optional (some detail) = some (cap_detail detail)

-- The `Healthy` arm of `observe`.
observe_healthy : HealthTracker → HealthTracker
unfolding saturating_suc state_eq
observe_healthy t =
    let u = record t { grace_ended = true; consecutive_failures = 0; last_error = none } in
    if state_eq t.state TrackerState.healthy
    then record u { consecutive_successes = 0 }
    else if leb t.policy.success_threshold (saturating_suc t.consecutive_successes)
    then record u { state = TrackerState.healthy; consecutive_successes = 0 }
    else record u { consecutive_successes = saturating_suc t.consecutive_successes }

pub grace_active : HealthTracker → ℕ → Bool
grace_active t now = not t.grace_ended && ltb now (t.started_at + t.policy.start_period)

-- The `Unhealthy` arm of `observe`.
observe_unhealthy : HealthTracker → ℕ → Option Bytes → HealthTracker
unfolding saturating_suc state_eq grace_active
observe_unhealthy t now detail =
    let u = record t { consecutive_successes = 0; last_error = cap_optional detail } in
    if grace_active t now
    then u
    else let failures = saturating_suc t.consecutive_failures in
      record u {
        consecutive_failures = failures;
        state =
            if not (state_eq t.state TrackerState.unhealthy)
              && leb t.policy.failure_threshold failures
            then TrackerState.unhealthy
            else t.state;
      }

next_tracker : HealthTracker → ℕ → ProbeResult → HealthTracker
unfolding observe_healthy observe_unhealthy
next_tracker t now ProbeResult.healthy = observe_healthy t
next_tracker t now (ProbeResult.unhealthy detail) = observe_unhealthy t now detail

-- `HealthTracker::observe`: the tracker afterwards, and the update that is returned.
unfoldable pub observe : HealthTracker → ℕ → ProbeResult → HealthTracker × TrackerUpdate
unfolding next_tracker
observe t now result =
    let u = next_tracker t now result in
    (
      u,
      record {
        state = u.state;
        transitioned = not (state_eq t.state u.state);
        consecutive_failures = u.consecutive_failures;
        last_error = u.last_error;
      },
    )
