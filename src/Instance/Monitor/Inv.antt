-- ===== src/Instance/Monitor/Inv.antt =====
-- What holds of a monitor at every moment of its run.
pub mod Arms
pub mod Applying
use clash_nyanpasu_service.Shared.{
  ℕ, ◌≤◌, ◌<◌, ◌≡◌, ◌≢◌, ◌⊎◌, Bool, true, false, Option, none, some, List, [], ◌∷◌, All,
}
use clash_nyanpasu_service.Manager.Status.{
  StopReason, finished, user, error, InstanceState, InstanceStatus,
}
use clash_nyanpasu_service.Instance.{ProbeObservation, ProbeDriver, RunState, TerminatedPayload}
use clash_nyanpasu_service.Instance.Logs.{LogParser}
use clash_nyanpasu_service.Instance.Monitor.{
  Loop, selecting, polled, draining, acknowledging, returned, Stopper, absent, checked, flagged,
  silenced, shown, joined, aborted, confirmed, MonitorOptions, Monitor, exited_cleanly,
}

-- A core that is shown as running was acknowledged.
abbrev pub Ready : InstanceState → Bool → Type 0
Ready (InstanceState.running pid) ever_ready = ever_ready ≡ true
Ready _ ever_ready = Unit

abbrev pub IfTrue : Bool → Type 0 → Type 0
IfTrue true A = A
IfTrue false A = Unit

-- Between the time-out and the arm of the cancellation, or the abort, there is no run.
abbrev pub Gated : (probes_cancelled : Bool) → Loop → Option RunState → Type 0
Gated true loop run = Unit
Gated false selecting none = Unit
Gated false returned none = Unit
Gated false _ _ = ⊥

abbrev pub NoDriver : Option ProbeDriver → Type 0
NoDriver none = Unit
NoDriver (some driver) = ⊥

abbrev pub RunKnown : Option RunState → ℕ → Type 0
RunKnown none n = Unit
RunKnown (some run) n = run.run_id ≤ n

abbrev pub DriverKnown : Option ProbeDriver → ℕ → Type 0
DriverKnown none n = Unit
DriverKnown (some driver) n = driver.run_id ≤ n

-- No observation is of the run.
abbrev pub Unprobed : Option RunState → List ProbeObservation → Type 0
Unprobed none os = Unit
Unprobed (some run) os = All (λ o. o.run_id < run.run_id) os

abbrev pub NotWaiting : Loop → Type 0
NotWaiting (acknowledging pid o update origin) = ⊥
NotWaiting _ = Unit

-- The status when the monitor is gone; a stop that began before may have written over it, and an abort
-- leaves what is shown.
abbrev pub Ended : Loop → InstanceState → Stopper → Type 0
Ended returned (InstanceState.stopped reason) stopper = Unit
Ended returned InstanceState.stopping stopper =
    (stopper ≡ shown) ⊎ (stopper ≡ joined) ⊎ (stopper ≡ aborted)
Ended returned _ stopper = stopper ≡ aborted
Ended _ _ _ = Unit

-- Only the end of the monitor shows a stop.
abbrev pub Going : InstanceState → Loop → Type 0
Going (InstanceState.stopped reason) returned = Unit
Going (InstanceState.stopped reason) _ = ⊥
Going _ _ = Unit

-- The reason that is shown for the end.
abbrev pub Reason :
    InstanceState → (user_stop probe_timeout : Bool) → Option TerminatedPayload → Type 0
Reason (InstanceState.stopped finished) user_stop probe_timeout last_exit =
    (probe_timeout ≡ false) × (exited_cleanly last_exit ≡ true)
Reason (InstanceState.stopped user) user_stop probe_timeout last_exit = user_stop ≡ true
Reason _ user_stop probe_timeout last_exit = Unit

-- The thread that stops the instance has said so.
abbrev pub Asked : Stopper → Bool → Type 0
Asked absent user_stop = Unit
Asked checked user_stop = Unit
Asked _ user_stop = user_stop ≡ true

module _ (l : LogParser) (options : MonitorOptions) where
  pub record Inv (m : Monitor l options) : Type 0 where
    pub acknowledged_once : Ready m.status.state m.ever_ready
    pub fired : IfTrue m.timeout_fired ((m.ever_ready ≡ false) × (m.probe_timeout ≡ true))
    pub timed_out : IfTrue m.probe_timeout ((m.probe_cancel ≡ true) × (m.cancel ≡ true))
    pub gated : IfTrue m.probe_timeout (Gated m.probes_cancelled m.loop m.current)
    pub undriven : IfTrue m.probes_cancelled (NoDriver m.driver)
    pub unprobed : IfTrue m.probes_cancelled (Unprobed m.current m.observations)
    pub not_waiting : IfTrue m.probes_cancelled (NotWaiting m.loop)
    pub observations_known : All (λ o. o.run_id ≤ m.next_run_id) m.observations
    pub run_known : RunKnown m.current m.next_run_id
    pub driver_known : DriverKnown m.driver m.next_run_id
    pub going : Going m.status.state m.loop
    pub ended : Ended m.loop m.status.state m.stopper
    pub reason : Reason m.status.state m.user_stop m.probe_timeout m.last_exit
    pub asked : Asked m.stopper m.user_stop
