-- ===== src/Instance/Monitor/Inv/Applying.antt =====
-- The application of an observation keeps the invariant, before and after its wait.
use clash_nyanpasu_service.Shared.{
  ℕ, ◌≤◌, ◌≡◌, refl, subst, Bool, true, false, not, ◌&&◌, Option, none, some, List, [], ◌∷◌, All,
  arith, if_elim,
}
use clash_nyanpasu_service.Health.{HealthTracker, TrackerState, TrackerUpdate, state_eq}
use clash_nyanpasu_service.Instance.{ProbeObservation, RunState, observation_applies, health_status}
use clash_nyanpasu_service.Manager.Status.{HealthStatus}
use clash_nyanpasu_service.Instance.Logs.{LogParser}
use clash_nyanpasu_service.Instance.Monitor.{
  Loop, polled, draining, acknowledging, MonitorOptions, Monitor, Origin, observed, drained,
}
use clash_nyanpasu_service.Instance.Monitor.Apply.{
  resume, show_health, apply_update, apply_to, apply_observation, too_late, acknowledged,
}
use clash_nyanpasu_service.Instance.Monitor.Inv.{IfTrue, Unprobed, Inv}
use clash_nyanpasu_service.Instance.Monitor.Inv.Arms.{queued-Inv}

-- The loop from which an observation is applied.
abbrev pub at_origin : Origin → Loop
at_origin observed = polled
at_origin (drained deadline) = draining deadline

module _ (l : LogParser) (options : MonitorOptions) where
  resume-Inv :
      (origin : Origin) (m : Monitor l options)
      → Inv l options m
      → m.loop ≡ at_origin origin
      → Inv l options (resume l options origin m)
  unfolding resume
  resume-Inv observed m v at = ground arith
  resume-Inv (drained deadline) m v at = ground arith

  waiting-Inv :
      (origin : Origin) (o : ProbeObservation) (run : RunState) (tracker : HealthTracker)
      (update : TrackerUpdate) (m : Monitor l options)
      → Inv l options m
      → m.loop ≡ at_origin origin
      → m.probes_cancelled ≡ false
      → m.current ≡ some run
      → Inv l options (record m {
        current = some (record run { tracker = tracker; ack_attempted = true });
        loop = acknowledging run.pid o update origin;
      })
  waiting-Inv observed o run tracker update m v at open' cur = ground arith
  waiting-Inv (drained deadline) o run tracker update m v at open' cur = ground arith

  tracked-Inv :
      (run : RunState) (tracker : HealthTracker) (health : Option HealthStatus)
      (m : Monitor l options)
      → Inv l options m
      → m.probes_cancelled ≡ false
      → m.current ≡ some run
      → Inv l options (record m {
        current = some (record run { tracker = tracker });
        status = record m.status { health = health };
      })
  tracked-Inv run tracker health m v open' cur = ground arith

  apply_update-Inv :
      (origin : Origin) (o : ProbeObservation) (run : RunState) (u : HealthTracker × TrackerUpdate)
      (m : Monitor l options)
      → Inv l options m
      → m.loop ≡ at_origin origin
      → m.probes_cancelled ≡ false
      → m.current ≡ some run
      → Inv l options (apply_update l options origin o run u m)
  unfolding apply_update show_health
  apply_update-Inv origin o run (tracker, update) m v at open' cur =
      if_elim (Inv l options) (not run.ack_attempted && state_eq update.state TrackerState.healthy)
        (λ t. waiting-Inv origin o run tracker update m v at open' cur)
        (λ t.
          resume-Inv origin _
            (tracked-Inv run tracker (some (health_status m.status.health update o)) m v open' cur)
            at)

  Unprobed-parts :
      (b : Bool) (c : Option RunState) (o : ProbeObservation) (os : List ProbeObservation)
      → IfTrue b (Unprobed c (o ∷ os))
      → IfTrue b (Unprobed c (o ∷ [])) × IfTrue b (Unprobed c os)
  Unprobed-parts true none o os h = (tt, tt)
  Unprobed-parts true (some run) o os h = ((h.0, tt), h.1)
  Unprobed-parts false c o os h = (tt, tt)

  Unprobed-by :
      (o : ProbeObservation) (os : List ProbeObservation) (m : Monitor l options)
      → Inv l options m
      → m.observations ≡ o ∷ os
      → IfTrue m.probes_cancelled (Unprobed m.current (o ∷ []))
        × IfTrue m.probes_cancelled (Unprobed m.current os)
  Unprobed-by o os m v e =
      Unprobed-parts m.probes_cancelled m.current o os
        (subst (λ xs. IfTrue m.probes_cancelled (Unprobed m.current xs)) e v.unprobed)

  -- With the probes cancelled, no observation is of the run.
  observation_applies-foreign :
      (o : ProbeObservation) (run : RunState) (b : Bool)
      → IfTrue b (Unprobed (some run) (o ∷ []))
      → not (observation_applies o run) ≡ false
      → b ≡ false
  unfolding observation_applies
  observation_applies-foreign o run true h t = ground arith
  observation_applies-foreign o run false h t = refl

  apply_to-Inv :
      (origin : Origin) (o : ProbeObservation) (c : Option RunState) (m : Monitor l options)
      → Inv l options m
      → m.loop ≡ at_origin origin
      → IfTrue m.probes_cancelled (Unprobed c (o ∷ []))
      → m.current ≡ c
      → Inv l options (apply_to l options origin o c m)
  unfolding apply_to
  apply_to-Inv origin o none m v at foreign cur = resume-Inv origin m v at
  apply_to-Inv origin o (some run) m v at foreign cur =
      if_elim (Inv l options) (not (observation_applies o run)) (λ t. resume-Inv origin m v at)
        λ t.
          if_elim (Inv l options) (too_late l options o m) (λ s. resume-Inv origin m v at)
            λ s.
              apply_update-Inv origin o run _ m v at
                (observation_applies-foreign o run m.probes_cancelled foreign t) cur

  -- The first observation of the queue is taken from it.
  taken-Inv :
      (o : ProbeObservation) (os : List ProbeObservation) (m : Monitor l options)
      → Inv l options m
      → m.observations ≡ o ∷ os
      → Inv l options (record m { observations = os })
  taken-Inv o os m v e =
      queued-Inv l options m.logs os m v (Unprobed-by o os m v e).1
        (subst (All (λ (x : ProbeObservation). x.run_id ≤ m.next_run_id)) e v.observations_known).1

  pub apply_observation-Inv :
      (origin : Origin) (o : ProbeObservation) (os : List ProbeObservation) (m : Monitor l options)
      → Inv l options m
      → m.loop ≡ at_origin origin
      → m.observations ≡ o ∷ os
      → Inv l options (apply_observation l options origin o (record m { observations = os }))
  unfolding apply_observation
  apply_observation-Inv origin o os m v at e =
      apply_to-Inv origin o m.current (record m { observations = os }) (taken-Inv o os m v e) at
        ((Unprobed-by o os m v e).0) refl

  pub acknowledged-Inv :
      (answer : Bool) (pid : ℕ) (o : ProbeObservation) (update : TrackerUpdate) (origin : Origin)
      (m : Monitor l options)
      → Inv l options m
      → m.loop ≡ acknowledging pid o update origin
      → Inv l options (acknowledged l options answer pid o update origin m)
  unfolding acknowledged
  acknowledged-Inv true pid o update origin m v at = ground arith
  acknowledged-Inv false pid o update observed m v at = ground arith
  acknowledged-Inv false pid o update (drained deadline) m v at = ground arith
