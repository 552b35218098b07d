-- ===== src/Health/Tests.antt =====
-- Trackers on concrete runs of probes.
use clash_nyanpasu_service.Shared.{
  ℕ, ◌+◌, ◌≤◌, ◌<◌, ◌≡◌, refl, ◌↔◌, ◌⊎◌, Bytes, codes, true, false, Option, some, List, [], ◌∷◌,
  zero, suc, All, arith, length, take,
}
use clash_nyanpasu_service.Health.{
  TrackerState, HealthTracker, ProbeResult, default_policy, new_tracker, observe, is_char_boundary,
  is_char_start, cap_detail, max_last_error_bytes,
}
use clash_nyanpasu_service.Health.Tracker.{IsPolicy, Inv, new_tracker-Inv, observe-Inv}
use clash_nyanpasu_service.Health.Streaks.{run, run-Inv, Failures, Failures-unhealthy}
use clash_nyanpasu_service.Health.Detail.{cap_detail-longest}

default_policy-IsPolicy : IsPolicy default_policy
unfolding default_policy
default_policy-IsPolicy = record {
  failure_pos = omega arith;
  failure_max = omega arith;
  success_pos = omega arith;
  success_max = omega arith;
}

abbrev fresh : HealthTracker
fresh = new_tracker default_policy 100

fresh-Inv : Inv fresh
fresh-Inv = new_tracker-Inv default_policy 100 default_policy-IsPolicy

abbrev failed_probe : ProbeResult
failed_probe = ProbeResult.unhealthy (some (codes "connection refused"))

abbrev probes : List (ℕ × ProbeResult)
probes = (101, ProbeResult.healthy) ∷ (102, failed_probe) ∷ []

run-Inv_example : Inv (run fresh probes)
run-Inv_example = run-Inv fresh probes fresh-Inv

abbrev answering : HealthTracker
answering = (observe fresh 101 ProbeResult.healthy).0

answering_graced : answering.grace_ended ≡ true
unfolding observe new_tracker default_policy
answering_graced = refl

abbrev three_failures : List (ℕ × ProbeResult)
three_failures = (102, failed_probe) ∷ (103, failed_probe) ∷ (104, failed_probe) ∷ []

refused_probe : (d : Option Bytes) × (failed_probe ≡ ProbeResult.unhealthy d)
refused_probe = (some (codes "connection refused"), refl)

three_Failures : Failures three_failures
three_Failures = (refused_probe, (refused_probe, (refused_probe, tt)))

Failures-unhealthy_example : ((run answering three_failures).state ≡ TrackerState.unhealthy) ↔ (
    (answering.state ≡ TrackerState.unhealthy)
    ⊎ (answering.policy.failure_threshold ≤ answering.consecutive_failures + 3))
Failures-unhealthy_example =
    Failures-unhealthy answering three_failures
      (observe-Inv fresh 101 ProbeResult.healthy fresh-Inv) answering_graced three_Failures

abbrev patient : HealthTracker
patient = new_tracker (record default_policy { start_period = 10 }) 100

patient_fresh : (patient.grace_ended ≡ false) × (patient.consecutive_successes ≡ 0)
unfolding new_tracker
patient_fresh = (refl, refl)

patient_early : All (λ r. r.0 < patient.started_at + patient.policy.start_period) three_failures
unfolding new_tracker
patient_early = (omega arith, (omega arith, (omega arith, tt)))

-- 511 ASCII bytes and then a character of two bytes, which the cap would split.
as_then : ℕ → Bytes → Bytes
as_then zero d = d
as_then (suc n) d = 97 ∷ as_then n d

abbrev long_detail : Bytes
long_detail = as_then 511 (195 ∷ 169 ∷ 97 ∷ [])

length-as_then : (n : ℕ) (d : Bytes) → length (as_then n d) ≡ n + length d
unfolding as_then
length-as_then zero d = omega arith
length-as_then (suc n) d = omega (arith, length-as_then n d)

boundary-as_then : (n : ℕ) (d : Bytes) → is_char_boundary (as_then n d) n ≡ is_char_boundary d 0
unfolding as_then is_char_boundary
boundary-as_then zero d = refl
boundary-as_then (suc n) d = boundary-as_then n d

long_start : is_char_boundary long_detail 0 ≡ true
unfolding as_then is_char_boundary is_char_start
long_start = refl

long_length : max_last_error_bytes < length long_detail
long_length = omega (arith, length-as_then 511 (195 ∷ 169 ∷ 97 ∷ []))

long_boundary : is_char_boundary long_detail 511 ≡ true
unfolding is_char_boundary is_char_start
long_boundary = boundary-as_then 511 (195 ∷ 169 ∷ 97 ∷ [])

within : 511 ≤ max_last_error_bytes
within = omega arith

cap_detail-longest_example :
    (cap_detail long_detail ≡ take (length (cap_detail long_detail)) long_detail)
    × (length (cap_detail long_detail) ≤ max_last_error_bytes)
    × (is_char_boundary long_detail (length (cap_detail long_detail)) ≡ true)
    × (511 ≤ length (cap_detail long_detail))
cap_detail-longest_example =
    cap_detail-longest long_detail 511 long_start long_length within long_boundary
