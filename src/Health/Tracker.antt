-- ===== src/Health/Tracker.antt =====
-- What holds of a tracker between two observations.
use clash_nyanpasu_service.Shared.{ℕ, ◌≤◌, ◌<◌, ◌≡◌, ◌⊎◌, true, arith}
use clash_nyanpasu_service.Health.{
  HealthPolicy, TrackerState, HealthTracker, ProbeResult, u32_max, new_tracker, observe,
}

-- The thresholds are non-zero `u32`s.
pub record IsPolicy (p : HealthPolicy) : Type 0 where
  pub failure_pos : 0 < p.failure_threshold
  pub failure_max : p.failure_threshold ≤ u32_max
  pub success_pos : 0 < p.success_threshold
  pub success_max : p.success_threshold ≤ u32_max

-- The failure streak crosses its threshold exactly in the unhealthy state (until a success resets
-- it), the success streak never reaches its own, and at most one of the two is running.
pub record Inv (t : HealthTracker) : Type 0 where
  pub policy : IsPolicy t.policy
  pub failures_max : t.consecutive_failures ≤ u32_max
  pub successes_below : t.consecutive_successes < t.policy.success_threshold
  pub crossed_unhealthy :
      t.policy.failure_threshold ≤ t.consecutive_failures → t.state ≡ TrackerState.unhealthy
  pub one_streak : (t.consecutive_failures ≡ 0) ⊎ (t.consecutive_successes ≡ 0)
  pub healthy_idle : t.state ≡ TrackerState.healthy → t.consecutive_successes ≡ 0
  pub graced : t.state ≡ TrackerState.healthy → t.grace_ended ≡ true

pub new_tracker-Inv : (p : HealthPolicy) (at : ℕ) → IsPolicy p → Inv (new_tracker p at)
unfolding new_tracker
new_tracker-Inv p at v = ground arith

pub observe-Inv : (t : HealthTracker) (now : ℕ) (r : ProbeResult) → Inv t → Inv (observe t now r).0
unfolding observe
observe-Inv t now ProbeResult.healthy v = ground arith
observe-Inv t now (ProbeResult.unhealthy detail) v = ground arith
