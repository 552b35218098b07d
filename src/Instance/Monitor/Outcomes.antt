-- ===== src/Instance/Monitor/Outcomes.antt =====
-- What a time-out and the end of the monitor leave, in every run.
use clash_nyanpasu_service.Shared.{
  ℕ, ◌<◌, ◌≡◌, ◌≢◌, ◌⊎◌, inl, inr, subst, refl, ◌∙◌, Bool, true, false, Option, arith,
}
use clash_nyanpasu_service.Manager.Status.{InstanceState, StopReason, finished, user, error}
use clash_nyanpasu_service.Instance.{RunState, u64_max}
use clash_nyanpasu_service.Instance.Logs.{LogParser, Logs}
use clash_nyanpasu_service.Instance.Monitor.{
  Loop, selecting, polled, draining, acknowledging, returned, Stopper, shown, joined, aborted,
  MonitorOptions, Monitor, spawned, exited_cleanly,
}
use clash_nyanpasu_service.Instance.Monitor.Moves.{Run}
use clash_nyanpasu_service.Instance.Monitor.Inv.{
  IfTrue, Gated, NotWaiting, Ended, Asked, Reason, Inv,
}
use clash_nyanpasu_service.Instance.Monitor.Inv.Arms.{spawned-Inv}
use clash_nyanpasu_service.Instance.Monitor.Runs.{Run-Inv}

-- A monitor that a deadline has ended: the process is being killed, no acknowledgement is waited for, and
-- after the deadline of the first start it was never ready.
pub record IsOver {l : LogParser} {options : MonitorOptions} (m : Monitor l options) : Type 0 where
  pub quiet : NotWaiting m.loop
  pub probes_off : m.probe_cancel ≡ true
  pub killed : m.cancel ≡ true
  pub never_ready : m.timeout_fired ≡ true → m.ever_ready ≡ false
  pub not_running : m.timeout_fired ≡ true → (pid : ℕ) → m.status.state ≢ InstanceState.running pid

-- The end that is shown: a reason that the code has grounds for; or `stopping`, where the thread that stops
-- the instance looked at the status before the end and wrote after it; or anything, where that thread has
-- aborted the monitor and not yet shown an end.
abbrev pub IsOutcome : {l : LogParser} {options : MonitorOptions} → Monitor l options → Type 0
IsOutcome m =
    ((reason : StopReason) × (m.status.state ≡ InstanceState.stopped reason)
      × (reason ≡ user → m.user_stop ≡ true)
      × (reason ≡ finished → (m.probe_timeout ≡ false) × (exited_cleanly m.last_exit ≡ true)))
    ⊎ ((m.status.state ≡ InstanceState.stopping) × ((m.stopper ≡ shown) ⊎ (m.stopper ≡ joined)))
    ⊎ ((m.stopper ≡ aborted) × (m.user_stop ≡ true))

quiet_gate :
    (b : Bool) (loop : Loop) (run : Option RunState)
    → Gated b loop run
    → IfTrue b (NotWaiting loop)
    → NotWaiting loop
quiet_gate true loop run g n = n
quiet_gate false selecting run g n = tt
quiet_gate false polled run g n = tt
quiet_gate false returned run g n = tt
quiet_gate false (draining deadline) run g n = tt
quiet_gate false (acknowledging pid o update origin) run g n = g

module _ (l : LogParser) (options : MonitorOptions) where
  Inv-IsOver : (m : Monitor l options) → Inv l options m → m.probe_timeout ≡ true → IsOver m
  Inv-IsOver m v t = record {
    quiet =
        quiet_gate m.probes_cancelled m.loop m.current
          (subst (λ (b : Bool). IfTrue b (Gated m.probes_cancelled m.loop m.current)) t v.gated)
          v.not_waiting;
    probes_off = ground (arith, v.timed_out);
    killed = ground (arith, v.timed_out);
    never_ready = λ f. ground (arith, v.fired);
    not_running = λ f pid e. ground (arith, v.fired, v.acknowledged_once);
  }

  reasoned :
      (m : Monitor l options) (s : InstanceState) (k : Stopper)
      → m.status.state ≡ s
      → m.stopper ≡ k
      → Ended returned s k
      → Asked k m.user_stop
      → Reason s m.user_stop m.probe_timeout m.last_exit
      → IsOutcome m
  reasoned m (InstanceState.stopped finished) k e f h u r = inl (finished, e, λ x. cc, λ x. r)
  reasoned m (InstanceState.stopped user) k e f h u r = inl (user, e, λ x. r, λ x. cc)
  reasoned m (InstanceState.stopped (error text)) k e f h u r =
      inl (error text, e, λ x. cc, λ x. cc)
  reasoned m InstanceState.stopping k e f (inl h) u r = inr (inl (e, inl (f ∙ h)))
  reasoned m InstanceState.stopping k e f (inr (inl h)) u r = inr (inl (e, inr (f ∙ h)))
  reasoned m InstanceState.stopping k e f (inr (inr h)) u r =
      inr (inr (f ∙ h, subst (λ (x : Stopper). Asked x m.user_stop) h u))
  reasoned m InstanceState.starting k e f h u r =
      inr (inr (f ∙ h, subst (λ (x : Stopper). Asked x m.user_stop) h u))
  reasoned m (InstanceState.running pid) k e f h u r =
      inr (inr (f ∙ h, subst (λ (x : Stopper). Asked x m.user_stop) h u))
  reasoned m (InstanceState.restarting attempt) k e f h u r =
      inr (inr (f ∙ h, subst (λ (x : Stopper). Asked x m.user_stop) h u))

  -- Whenever a run of a monitor and of the threads beside it has set `probe_timeout`, with fewer than
  -- 2^64 - 1 starts of the process counted: the process is being killed and the probes are cancelled, no
  -- acknowledgement is waited for, and where the deadline of the first start set it, the instance was never
  -- ready and is not shown as running.
  pub timed_out-IsOver :
      (logs : Logs l) (now_ms : ℕ) (m : Monitor l options)
      → Run l options (spawned l options logs now_ms) m
      → m.next_run_id < u64_max
      → m.probe_timeout ≡ true
      → IsOver m
  timed_out-IsOver logs now_ms m r small t =
      Inv-IsOver m (Run-Inv l options r small (spawned-Inv l options logs now_ms)) t

  -- Whenever a run of a monitor and of the threads beside it has ended the monitor, by its own return or by
  -- an abort, with fewer than 2^64 - 1 starts counted, one of these holds: the status is stopped, by the
  -- user only if a stop was asked for, and finished only if no deadline ended it and the process exited with
  -- code 0; or it is `stopping`, written by the thread that stops the instance after its test of the status;
  -- or that thread, which has asked for the stop, has aborted the monitor and not yet shown an end.
  pub returned-IsOutcome :
      (logs : Logs l) (now_ms : ℕ) (m : Monitor l options)
      → Run l options (spawned l options logs now_ms) m
      → m.next_run_id < u64_max
      → m.loop ≡ returned
      → IsOutcome m
  returned-IsOutcome logs now_ms m r small at =
      let v = Run-Inv l options r small (spawned-Inv l options logs now_ms) in
      reasoned m m.status.state m.stopper refl refl
        (subst (λ (x : Loop). Ended x m.status.state m.stopper) at v.ended) v.asked v.reason
