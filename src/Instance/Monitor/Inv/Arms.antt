-- ===== src/Instance/Monitor/Inv/Arms.antt =====
-- The arms that apply no observation, and the threads beside the monitor, keep the invariant.
use clash_nyanpasu_service.Shared.{
  All, List, ℕ, ◌≤◌, ◌<◌, ◌≡◌, Bool, true, false, not, ◌&&◌, All-map, arith, if_elim,
}
use clash_nyanpasu_service.Manager.Status.{StopReason, finished, user, InstanceState}
use clash_nyanpasu_service.Instance.{
  ProbeObservation, u64_max, next_run, SupervisorEvent, started, restarting, exited, gave_up,
  stopped, ready,
}
use clash_nyanpasu_service.Instance.Logs.{LogParser, Logs}
use clash_nyanpasu_service.Instance.Monitor.{
  Loop, selecting, polled, draining, MonitorOptions, Clock, Monitor, exited_cleanly, spawned,
  cancelled, on_started, leave, leave_with, publish_terminal, receive_event, gone, expire, Deadline,
  initial, respawn,
}
use clash_nyanpasu_service.Instance.Monitor.Inv.{
  Unprobed, IfTrue, NotWaiting, Ended, Going, Reason, Inv,
}

next_run-lt : {k : ℕ} (n : ℕ) → n < u64_max → k ≤ n → k < next_run n
unfolding next_run
next_run-lt n h k = ground (arith)

always : {A : Type 0} (b : Bool) → A → IfTrue b A
always true a = a
always false a = tt

le_of_lt : {k n : ℕ} → k < n → k ≤ n
le_of_lt h = omega arith

module _ (l : LogParser) (options : MonitorOptions) where
  pub spawned-Inv : (logs : Logs l) (now_ms : ℕ) → Inv l options (spawned l options logs now_ms)
  unfolding spawned
  spawned-Inv logs now_ms = ground arith

  -- Other logs, and another queue whose observations are as the invariant asks.
  pub queued-Inv :
      (logs : Logs l) (os : List ProbeObservation) (m : Monitor l options)
      → Inv l options m
      → IfTrue m.probes_cancelled (Unprobed m.current os)
      → All (λ o. o.run_id ≤ m.next_run_id) os
      → Inv l options (record m { logs = logs; observations = os })
  queued-Inv logs os m v unprobed known = record {
    acknowledged_once = v.acknowledged_once;
    fired = v.fired;
    timed_out = v.timed_out;
    gated = v.gated;
    undriven = v.undriven;
    unprobed = unprobed;
    not_waiting = v.not_waiting;
    observations_known = known;
    run_known = v.run_known;
    driver_known = v.driver_known;
    going = v.going;
    ended = v.ended;
    reason = v.reason;
    asked = v.asked;
  }

  pub cancelled-Inv :
      (m : Monitor l options)
      → Inv l options m
      → m.loop ≡ selecting
      → m.probe_cancel && not m.probes_cancelled ≡ true
      → Inv l options (cancelled l options m)
  unfolding cancelled
  cancelled-Inv m v at t = ground arith

  pub moved-Inv :
      (m : Monitor l options) (loop : Loop)
      → Inv l options m
      → IfTrue m.probe_timeout (m.probes_cancelled ≡ true)
      → NotWaiting loop
      → Going m.status.state loop
      → Ended loop m.status.state m.stopper
      → Inv l options (record m { loop = loop })
  moved-Inv m loop v g n h k = ground arith

  -- The end of the monitor, with any reason that the code has grounds for.
  leave-Inv :
      (m : Monitor l options) (reason : StopReason) (logs : Logs l)
      → Inv l options m
      → m.loop ≡ polled
      → Reason (InstanceState.stopped reason) m.user_stop m.probe_timeout m.last_exit
      → Inv l options (leave l options reason logs m)
  unfolding leave
  leave-Inv m reason logs v at r = ground arith

  pub publish_terminal-Inv :
      (m : Monitor l options)
      → Inv l options m
      → m.loop ≡ polled
      → Inv l options (publish_terminal l options m)
  unfolding publish_terminal leave_with leave
  publish_terminal-Inv m v at =
      if_elim (Inv l options) m.user_stop (λ u. leave-Inv m user _ v at u)
        λ u.
          if_elim (Inv l options) m.probe_timeout (λ p. leave-Inv m _ _ v at tt)
            λ p.
              if_elim (Inv l options) (exited_cleanly m.last_exit)
                (λ c. leave-Inv m finished _ v at (p, c)) (λ c. leave-Inv m _ _ v at tt)

  on_started-Inv :
      (pid : ℕ) (clock : Clock) (m : Monitor l options)
      → Inv l options m
      → m.loop ≡ polled
      → m.next_run_id < u64_max
      → Inv l options (on_started l options pid clock m)
  unfolding on_started
  on_started-Inv pid clock m v at small =
      let known = λ (o : ProbeObservation) (h : o.run_id ≤ m.next_run_id).
        le_of_lt (next_run-lt m.next_run_id small h) in
      let older = λ (o : ProbeObservation) (h : o.run_id ≤ m.next_run_id).
        next_run-lt m.next_run_id small h in
      record {
        acknowledged_once = v.acknowledged_once;
        fired = v.fired;
        timed_out = v.timed_out;
        gated = ground (arith, v.gated);
        undriven = ground arith;
        unprobed =
            always m.probes_cancelled (All-map _ _ m.observations older v.observations_known);
        not_waiting = ground arith;
        observations_known = All-map _ _ m.observations known v.observations_known;
        run_known = omega arith;
        driver_known = ground arith;
        going = ground (arith, v.going);
        ended = tt;
        reason = v.reason;
        asked = v.asked;
      }

  pub receive_event-Inv :
      (event : SupervisorEvent) (clock : Clock) (m : Monitor l options)
      → Inv l options m
      → m.loop ≡ polled
      → m.next_run_id < u64_max
      → Inv l options (receive_event l options event clock m)
  unfolding receive_event
  receive_event-Inv (started pid) clock m v at small = on_started-Inv pid clock m v at small
  receive_event-Inv (restarting attempt) clock m v at small = ground arith
  receive_event-Inv (exited payload) clock m v at small = ground arith
  receive_event-Inv gave_up clock m v at small = leave-Inv m _ _ v at tt
  receive_event-Inv stopped clock m v at small = publish_terminal-Inv m v at
  receive_event-Inv ready clock m v at small = ground arith

  pub expire-Inv :
      (deadline : Deadline) (m : Monitor l options)
      → Inv l options m
      → m.loop ≡ draining deadline
      → Inv l options (expire l options deadline m)
  unfolding expire
  expire-Inv initial m v at =
      if_elim (Inv l options) m.ever_ready (λ t. ground arith) (λ t. ground arith)
  expire-Inv respawn m v at =
      if_elim (Inv l options) (gone l options m.respawn_deadline) (λ t. ground arith)
        (λ t. ground arith)
