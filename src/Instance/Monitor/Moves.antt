-- ===== src/Instance/Monitor/Moves.antt =====
-- The steps of a monitor and of the threads beside it. A step of the monitor is what it does between two
-- waits; `stop_and_confirm_dead` is cut where it writes to what the monitor reads.
use clash_nyanpasu_service.Shared.{
  ℕ, ◌≡◌, ◌≢◌, ◌⊎◌, Bytes, Bool, true, false, not, ◌&&◌, Option, none, some, List, [], ◌∷◌, ◌++◌,
}
use clash_nyanpasu_service.Health.{TrackerUpdate, ProbeResult}
use clash_nyanpasu_service.Manager.Status.{InstanceState, user}
use clash_nyanpasu_service.Manager.Session.{is_ended}
use clash_nyanpasu_service.Instance.{ProbePhase, ProbeObservation, ProbeDriver, SupervisorEvent}
use clash_nyanpasu_service.Instance.Logs.{LogParser, LogStream, print, flush_log_record}
use clash_nyanpasu_service.Instance.Monitor.{
  Deadline, initial, respawn, Origin, observed, drained, selecting, polled, draining, acknowledging,
  absent, checked, flagged, silenced, shown, joined, aborted, confirmed, returned, MonitorOptions,
  Clock, Monitor, cancelled, receive_event, publish_terminal, expire,
}
use clash_nyanpasu_service.Instance.Monitor.Apply.{apply_observation, acknowledged}

-- The guards of the two arms of the deadlines.
abbrev pub Due : Deadline → (ever_ready timeout_fired : Bool) → Option ℕ → Type 0
Due initial ever_ready timeout_fired deadline = (ever_ready ≡ false) × (timeout_fired ≡ false)
Due respawn ever_ready timeout_fired deadline = deadline ≢ none

module _ (l : LogParser) (options : MonitorOptions) where
  -- The arm of `probe_cancel` is looked at first, and another thread may cancel after that.
  pub data Move (m n : Monitor l options) : Type 0 where
    cancels :
        m.loop ≡ selecting
        → m.probe_cancel && not m.probes_cancelled ≡ true
        → n ≡ cancelled l options m
        → Move m n
    polls :
        m.loop ≡ selecting
        → m.probe_cancel && not m.probes_cancelled ≡ false
        → n ≡ record m { loop = polled }
        → Move m n
    wakes : m.loop ≡ polled → n ≡ record m { loop = selecting } → Move m n
    receives :
        (event : SupervisorEvent) (clock : Clock)
        → m.loop ≡ polled
        → n ≡ receive_event l options event clock m
        → Move m n
    closes : m.loop ≡ polled → n ≡ publish_terminal l options m → Move m n
    elapses :
        (deadline : Deadline)
        → m.loop ≡ polled
        → Due deadline m.ever_ready m.timeout_fired m.respawn_deadline
        → n ≡ record m { loop = draining deadline }
        → Move m n
    drains :
        (deadline : Deadline) (o : ProbeObservation) (os : List ProbeObservation)
        → m.loop ≡ draining deadline
        → m.observations ≡ o ∷ os
        → n ≡ apply_observation l options (drained deadline) o (record m { observations = os })
        → Move m n
    expires :
        (deadline : Deadline)
        → m.loop ≡ draining deadline
        → m.observations ≡ []
        → n ≡ expire l options deadline m
        → Move m n
    observes :
        (o : ProbeObservation) (os : List ProbeObservation)
        → m.loop ≡ polled
        → m.observations ≡ o ∷ os
        → n ≡ apply_observation l options observed o (record m { observations = os })
        → Move m n
    -- The answer is `false` where the supervisor is not in its mutex.
    answers :
        (answer : Bool) (pid : ℕ) (o : ProbeObservation) (update : TrackerUpdate) (origin : Origin)
        → m.loop ≡ acknowledging pid o update origin
        → (answer ≡ true → m.supervised ≡ true)
        → n ≡ acknowledged l options answer pid o update origin m
        → Move m n
    -- The driver's task ends an attempt, a periodic one or one that was asked for.
    probes :
        (driver : ProbeDriver) (phase : ProbePhase) (completed_at completed_at_ms : ℕ)
        (result : ProbeResult)
        → m.driver ≡ some driver
        → n ≡ record m {
          observations =
              m.observations
              ++ record {
                run_id = driver.run_id;
                pid = driver.pid;
                phase = phase;
                completed_at = completed_at;
                completed_at_ms = completed_at_ms;
                result = result;
              }
                ∷ [];
        }
        → Move m n
    -- The process prints a line.
    prints :
        (stream : LogStream) (line : Bytes)
        → n ≡ record m { logs = print l stream line m.logs }
        → Move m n
    -- `wait_ready` takes the diagnostics.
    flushes : n ≡ record m { logs = flush_log_record l m.logs } → Move m n
    -- `stop_and_confirm_dead`: its test, `user_stop`, `probe_cancel`, the status, and the supervisor.
    checks :
        m.stopper ≡ absent
        → is_ended m.status.state ≡ false
        → n ≡ record m { stopper = checked }
        → Move m n
    flags : m.stopper ≡ checked → n ≡ record m { user_stop = true; stopper = flagged } → Move m n
    silences :
        m.stopper ≡ flagged → n ≡ record m { probe_cancel = true; stopper = silenced } → Move m n
    shows :
        m.stopper ≡ silenced
        → n ≡ record m {
          status = record { instance_id = none; state = InstanceState.stopping; health = none };
          stopper = shown;
        }
        → Move m n
    takes :
        m.stopper ≡ shown
        → ((pid : ℕ) (o : ProbeObservation) (update : TrackerUpdate) (origin : Origin)
            → m.loop ≢ acknowledging pid o update origin)
        → n ≡ record m { supervised = false }
        → Move m n
    -- It waits for the monitor, and aborts it where it waits too long: the task is dropped at its wait.
    joins : m.stopper ≡ shown → m.loop ≡ returned → n ≡ record m { stopper = joined } → Move m n
    aborts : m.stopper ≡ shown → n ≡ record m { loop = returned; stopper = aborted } → Move m n
    -- Where no end is shown and the record of the process proves its death, it shows one itself.
    confirms :
        (m.stopper ≡ joined) ⊎ (m.stopper ≡ aborted)
        → m.loop ≡ returned
        → is_ended m.status.state ≡ false
        → n ≡ record m {
          status = record { instance_id = none; state = InstanceState.stopped user; health = none };
          stopper = confirmed;
        }
        → Move m n
    -- `Drop`.
    drops : n ≡ record m { probe_cancel = true; cancel = true } → Move m n

  pub data Run (m : Monitor l options) : Monitor l options → Type 0 where
    here : Run m m
    next : {p q : Monitor l options} → Run m p → Move p q → Run m q
