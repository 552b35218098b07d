-- ===== src/Health/Streaks.antt =====
-- Runs of observations: when a streak flips the tracker, and what the grace period hides.
use clash_nyanpasu_service.Shared.{
  ℕ, ◌+◌, ◌≤◌, ◌<◌, ◌≡◌, ◌↔◌, refl, ◌⊎◌, inl, inr, Bytes, true, false, Option, List, [], ◌∷◌,
  length, arith, All, ◌∙◌,
}
use clash_nyanpasu_service.Health.{TrackerState, HealthTracker, ProbeResult, u32_max, observe}
use clash_nyanpasu_service.Health.Tracker.{Inv, observe-Inv}

-- The tracker after a list of observations, each with its instant.
pub run : HealthTracker → List (ℕ × ProbeResult) → HealthTracker
run t [] = t
run t ((now, r) ∷ rs) = run (observe t now r).0 rs

-- A tracker that satisfies the invariant satisfies it after any list of observations.
pub run-Inv : (t : HealthTracker) (rs : List (ℕ × ProbeResult)) → Inv t → Inv (run t rs)
unfolding run
run-Inv t [] v = v
run-Inv t ((now, r) ∷ rs) v = run-Inv (observe t now r).0 rs (observe-Inv t now r v)

-- Nothing but failures, none of which the grace period hides.
abbrev pub Failures : List (ℕ × ProbeResult) → Type 0
Failures = All λ r. (d : Option Bytes) × (r.1 ≡ ProbeResult.unhealthy d)

abbrev pub Successes : List (ℕ × ProbeResult) → Type 0
Successes = All λ r. r.1 ≡ ProbeResult.healthy

failure-step :
    (t : HealthTracker) (now : ℕ) (d : Option Bytes)
    → Inv t
    → t.grace_ended ≡ true
    → let u = (observe t now (ProbeResult.unhealthy d)).0 in
      (u.grace_ended ≡ true)
      × (u.policy ≡ t.policy)
      × ((u.state ≡ TrackerState.unhealthy) ↔ (
          (t.state ≡ TrackerState.unhealthy)
          ⊎ (t.policy.failure_threshold ≤ t.consecutive_failures + 1)))
      × ((u.consecutive_failures ≡ t.consecutive_failures + 1)
          ⊎ ((t.consecutive_failures ≡ u32_max) × (u.consecutive_failures ≡ u32_max)))
unfolding observe
failure-step t now d v g = (ground arith, ground arith, (ground arith, ground arith), ground arith)

-- Once a probe has succeeded, a run of n failures leaves the tracker unhealthy exactly when it was
-- unhealthy before, or the failures counted before and these reach the threshold together.
pub Failures-unhealthy :
    (t : HealthTracker) (rs : List (ℕ × ProbeResult))
    → Inv t
    → t.grace_ended ≡ true
    → Failures rs
    → ((run t rs).state ≡ TrackerState.unhealthy) ↔ (
        (t.state ≡ TrackerState.unhealthy)
        ⊎ (t.policy.failure_threshold ≤ t.consecutive_failures + length rs))
unfolding run
Failures-unhealthy t [] v g f = (λ h. inl h, λ h. ground arith)
Failures-unhealthy t ((now, ProbeResult.healthy) ∷ rs) v g f = absurd (cc f.0.1)
Failures-unhealthy t ((now, ProbeResult.unhealthy d) ∷ rs) v g f =
    let s = failure-step t now d v g in
    let u = (observe t now (ProbeResult.unhealthy d)).0 in
    let ih = Failures-unhealthy u rs (observe-Inv t now (ProbeResult.unhealthy d) v) s.0 f.1 in
    let same : u.policy ≡ t.policy = s.1 in
    (λ h. ground (arith, ih.0 h, s.2, s.3, same), λ h. ih.1 (ground (arith, s.2, s.3, same)))

success-step :
    (t : HealthTracker) (now : ℕ)
    → Inv t
    → let u = (observe t now ProbeResult.healthy).0 in
      (u.policy ≡ t.policy)
      × (u.consecutive_failures ≡ 0)
      × ((u.state ≡ TrackerState.healthy) ↔ (
          (t.state ≡ TrackerState.healthy)
          ⊎ (t.policy.success_threshold ≤ t.consecutive_successes + 1)))
      × ((u.state ≡ TrackerState.healthy) ⊎ (u.consecutive_successes ≡ t.consecutive_successes + 1))
unfolding observe
success-step t now v = (ground arith, ground arith, (ground arith, ground arith), ground arith)

healthy-kept :
    (t : HealthTracker) (rs : List (ℕ × ProbeResult))
    → Inv t
    → t.state ≡ TrackerState.healthy
    → Successes rs
    → (run t rs).state ≡ TrackerState.healthy
unfolding run
healthy-kept t [] v h f = h
healthy-kept t ((now, ProbeResult.unhealthy d) ∷ rs) v h f = absurd (cc f.0)
healthy-kept t ((now, ProbeResult.healthy) ∷ rs) v h f =
    let s = success-step t now v in
    healthy-kept (observe t now ProbeResult.healthy).0 rs (observe-Inv t now ProbeResult.healthy v)
      (s.2.1 (inl h)) f.1

-- A run of n successes leaves the tracker healthy exactly when it was healthy before, or the
-- successes counted before and these reach the threshold together.
pub Successes-healthy :
    (t : HealthTracker) (rs : List (ℕ × ProbeResult))
    → Inv t
    → Successes rs
    → ((run t rs).state ≡ TrackerState.healthy) ↔ (
        (t.state ≡ TrackerState.healthy)
        ⊎ (t.policy.success_threshold ≤ t.consecutive_successes + length rs))
unfolding run
Successes-healthy t [] v f = (λ h. inl h, λ h. ground arith)
Successes-healthy t ((now, ProbeResult.unhealthy d) ∷ rs) v f = absurd (cc f.0)
Successes-healthy t ((now, ProbeResult.healthy) ∷ rs) v f =
    let s = success-step t now v in
    let u = (observe t now ProbeResult.healthy).0 in
    let w = observe-Inv t now ProbeResult.healthy v in
    let ih = Successes-healthy u rs w f.1 in
    let same : u.policy ≡ t.policy = s.0 in
    (
      λ h. ground (arith, ih.0 h, s.2, s.3, same),
      λ h. elim s.3 [
        | inl up ↦ healthy-kept u rs w up f.1
        | inr counted ↦ ih.1 (ground (arith, s.2, same))
      ],
    )

grace-step :
    (t : HealthTracker) (now : ℕ) (d : Option Bytes)
    → t.grace_ended ≡ false
    → now < t.started_at + t.policy.start_period
    → let u = (observe t now (ProbeResult.unhealthy d)).0 in
      (u.state ≡ t.state)
      × (u.consecutive_failures ≡ t.consecutive_failures)
      × (u.consecutive_successes ≡ 0)
      × (u.grace_ended ≡ false)
      × (u.started_at ≡ t.started_at)
      × (u.policy ≡ t.policy)
unfolding observe
grace-step t now d g e = ground arith

-- Before the first success, failures inside the start period move nothing but the last error: the
-- state and both counters stay, and nothing ends the grace.
pub grace-hides :
    (t : HealthTracker) (rs : List (ℕ × ProbeResult))
    → t.grace_ended ≡ false
    → t.consecutive_successes ≡ 0
    → Failures rs
    → All (λ r. r.0 < t.started_at + t.policy.start_period) rs
    → let u = run t rs in
      (u.state ≡ t.state)
      × (u.consecutive_failures ≡ t.consecutive_failures)
      × (u.consecutive_successes ≡ 0)
      × (u.grace_ended ≡ false)
unfolding run
grace-hides t [] g s f e = (refl, refl, s, g)
grace-hides t ((now, ProbeResult.healthy) ∷ rs) g s f e = absurd (cc f.0.1)
grace-hides t ((now, ProbeResult.unhealthy d) ∷ rs) g s f e =
    let u = (observe t now (ProbeResult.unhealthy d)).0 in
    let (e1, e2, e3, e4, e5, e6) = grace-step t now d g e.0 in
    let early : All (λ r. r.0 < u.started_at + u.policy.start_period) rs = rw (e5, e6) e.1 in
    let (h1, h2, h3, h4) = grace-hides u rs e4 e3 f.1 early in (h1 ∙ e1, h2 ∙ e2, h3, h4)
