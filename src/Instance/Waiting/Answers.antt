-- ===== src/Instance/Waiting/Answers.antt =====
-- What `wait_ready` answers, in every run of the monitor.
use clash_nyanpasu_service.Shared.{
  ℕ, ◌<◌, ◌≡◌, refl, subst, ◌⊎◌, inl, inr, Bytes, Bool, true, false, arith,
}
use clash_nyanpasu_service.Failure.{Error}
use clash_nyanpasu_service.Manager.Status.{InstanceState, StopReason}
use clash_nyanpasu_service.Instance.{u64_max}
use clash_nyanpasu_service.Instance.Logs.{LogParser, Logs}
use clash_nyanpasu_service.Instance.Monitor.{
  Loop, returned, selecting, polled, draining, acknowledging, MonitorOptions, Monitor, spawned,
}
use clash_nyanpasu_service.Instance.Monitor.Moves.{Run}
use clash_nyanpasu_service.Instance.Monitor.Inv.{Ready, Going, IfTrue, Inv}
use clash_nyanpasu_service.Instance.Monitor.Inv.Arms.{spawned-Inv}
use clash_nyanpasu_service.Instance.Monitor.Runs.{Run-Inv}
use clash_nyanpasu_service.Instance.Waiting.{
  Look, waits, is_ready, fails, failed_start, look_at_state, look,
}

module _ (l : LogParser) (options : MonitorOptions) where
  -- What an answer says of the monitor.
  abbrev pub Answers : Monitor l options → Look l options → Type 0
  Answers m waits = Unit
  Answers m is_ready = (m.ever_ready ≡ true) × (m.timeout_fired ≡ false)
  Answers m (fails n e) =
      (m.loop ≡ returned)
      × (((m.probe_timeout ≡ true) × (tail : Bytes) × (e ≡ Error.startup_timeout tail))
          ⊎ ((m.probe_timeout ≡ false) × (tail : Bytes) × (e ≡ Error.startup_failed tail)))

  failed_start-Answers :
      (m : Monitor l options) (b : Bool) (r : Logs l × Bytes)
      → m.loop ≡ returned
      → m.probe_timeout ≡ b
      → Answers m (failed_start l options m b r)
  unfolding failed_start
  failed_start-Answers m true (logs, tail) at t = (at, inl (t, tail, refl))
  failed_start-Answers m false (logs, tail) at t = (at, inr (t, tail, refl))

  Going-returned :
      (reason : StopReason) (loop : Loop)
      → Going (InstanceState.stopped reason) loop
      → loop ≡ returned
  Going-returned reason returned g = refl
  Going-returned reason selecting g = elim g [ ]
  Going-returned reason polled g = elim g [ ]
  Going-returned reason (draining deadline) g = elim g [ ]
  Going-returned reason (acknowledging pid o update origin) g = elim g [ ]

  never_fired :
      (fired ready timed_out : Bool)
      → IfTrue fired ((ready ≡ false) × (timed_out ≡ true))
      → ready ≡ true
      → fired ≡ false
  never_fired fired ready timed_out h r = ground arith

  look_at_state-Answers :
      (m : Monitor l options) (state : InstanceState)
      → Inv l options m
      → m.status.state ≡ state
      → Answers m (look_at_state l options state m)
  unfolding look_at_state
  look_at_state-Answers m (InstanceState.running pid) v e =
      let ready = subst (λ (s : InstanceState). Ready s m.ever_ready) e v.acknowledged_once in
      (ready, never_fired m.timeout_fired m.ever_ready m.probe_timeout v.fired ready)
  look_at_state-Answers m (InstanceState.stopped reason) v e =
      failed_start-Answers m m.probe_timeout _
        (Going-returned reason m.loop (subst (λ (s : InstanceState). Going s m.loop) e v.going))
        refl
  look_at_state-Answers m InstanceState.starting v e = tt
  look_at_state-Answers m (InstanceState.restarting attempt) v e = tt
  look_at_state-Answers m InstanceState.stopping v e = tt

  -- At every moment of a run with fewer than 2^64 - 1 starts counted: where `wait_ready` answers that the
  -- core is ready, it was acknowledged and the deadline of the first start never ended it; where it answers
  -- with an error, the monitor is gone, and the error is a time-out exactly if a deadline had passed.
  pub look-Answers :
      (logs : Logs l) (now_ms : ℕ) (m : Monitor l options)
      → Run l options (spawned l options logs now_ms) m
      → m.next_run_id < u64_max
      → Answers m (look l options m)
  unfolding look
  look-Answers logs now_ms m r small =
      look_at_state-Answers m m.status.state
        (Run-Inv l options r small (spawned-Inv l options logs now_ms)) refl
