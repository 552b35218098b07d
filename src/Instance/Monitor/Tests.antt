-- ===== src/Instance/Monitor/Tests.antt =====
-- Two runs of a monitor, and the theorems at them.
use clash_nyanpasu_service.Shared.{◌<◌, ◌≡◌, refl, inr, Bytes, codes, true, none, [], ◌∷◌, arith}
use clash_nyanpasu_service.Health.{default_policy}
use clash_nyanpasu_service.Manager.Status.{InstanceState, finished, user}
use clash_nyanpasu_service.Instance.{TerminatedPayload, exited, gave_up, stopped, u64_max}
use clash_nyanpasu_service.Manager.Session.{is_ended}
use clash_nyanpasu_service.Instance.Logs.{LogParser, Logs}
use clash_nyanpasu_service.Instance.Waiting.{look}
use clash_nyanpasu_service.Instance.Waiting.Answers.{Answers, look-Answers}
use clash_nyanpasu_service.Instance.Monitor.{
  checked, shown, aborted, confirmed, initial, polled, returned, draining, MonitorOptions, Clock,
  Monitor, spawned, receive_event, expire,
}
use clash_nyanpasu_service.Instance.Monitor.Moves.{
  Run, here, next, polls, elapses, expires, receives, checks, flags, silences, shows, aborts,
  confirms,
}
use clash_nyanpasu_service.Instance.Monitor.Outcomes.{
  IsOver, IsOutcome, timed_out-IsOver, returned-IsOutcome,
}

-- A parser that takes every line for a frame.
abbrev lines : LogParser
lines = record {
  Parser = Unit {0};
  Frame = Bytes;
  push = λ stream line parser. (parser, line ∷ []);
  finish = λ parser. (parser, []);
  format_tail = λ frames. [];
  error_summary = λ frames. none;
}

abbrev options : MonitorOptions
options = record { health = default_policy; startup_timeout = 5000; initial_deadline = 6000 }

abbrev empty : Logs lines
empty = record { parser = tt; log_tail = [] }

abbrev at_time : Clock
at_time = record { now = 7000; now_ms = 7000; uuid = 1 }

abbrev fresh : Monitor lines options
fresh = spawned lines options empty 1000

abbrev waiting : Monitor lines options
waiting = record fresh { loop = polled }

abbrev over : Monitor lines options
over = expire lines options initial (record waiting { loop = draining initial })

Run-over : Run lines options fresh over
unfolding spawned
Run-over =
    next (next (next here (polls refl refl refl)) (elapses initial refl (refl, refl) refl))
      (expires initial refl refl refl)

over-small : over.next_run_id < u64_max
unfolding expire spawned
over-small = omega arith

over-timed_out : over.probe_timeout ≡ true
unfolding expire spawned
over-timed_out = refl

timed_out-IsOver_example : IsOver over
timed_out-IsOver_example =
    timed_out-IsOver lines options empty 1000 over Run-over over-small over-timed_out

abbrev clean : TerminatedPayload
clean = record { code_is_zero = true; shown = codes "0" }

abbrev after_exit : Monitor lines options
after_exit = receive_event lines options (exited clean) at_time waiting

abbrev ended : Monitor lines options
ended = receive_event lines options stopped at_time (record after_exit { loop = polled })

Run-ended : Run lines options fresh ended
unfolding spawned receive_event
Run-ended =
    next
      (next (next (next here (polls refl refl refl)) (receives (exited clean) at_time refl refl))
        (polls refl refl refl))
      (receives stopped at_time refl refl)

ended-small : ended.next_run_id < u64_max
unfolding receive_event spawned
ended-small = omega arith

ended-returned : ended.loop ≡ returned
unfolding receive_event spawned
ended-returned = refl

ended-finished : ended.status.state ≡ InstanceState.stopped finished
unfolding receive_event spawned
ended-finished = refl

returned-IsOutcome_example : IsOutcome ended
returned-IsOutcome_example =
    returned-IsOutcome lines options empty 1000 ended Run-ended ended-small ended-returned

-- The clean end of a core that was never ready is a failed start.
look-Answers_example : Answers lines options ended (look lines options ended)
look-Answers_example = look-Answers lines options empty 1000 ended Run-ended ended-small

-- A stop whose wait for the monitor is too long aborts it, and shows the end itself.
abbrev cut_off : Monitor lines options
cut_off = record waiting {
  user_stop = true;
  probe_cancel = true;
  status = record { instance_id = none; state = InstanceState.stopping; health = none };
  loop = returned;
  stopper = aborted;
}

abbrev shown_as_stopped : Monitor lines options
shown_as_stopped = record cut_off {
  status = record { instance_id = none; state = InstanceState.stopped user; health = none };
  stopper = confirmed;
}

Run-confirmed : Run lines options fresh shown_as_stopped
unfolding spawned is_ended
Run-confirmed =
    next
      (next
        (next
          (next
            (next (next (next here (polls refl refl refl)) (checks refl refl refl))
              (flags refl refl))
            (silences refl refl))
          (shows refl refl))
        (aborts refl refl))
      (confirms (inr refl) refl refl refl)

-- A stop that looked at the status before the end of the monitor writes over it.
abbrev given_up : Monitor lines options
given_up = receive_event lines options gave_up at_time (record waiting { stopper = checked })

abbrev overwritten : Monitor lines options
overwritten = record given_up {
  user_stop = true;
  probe_cancel = true;
  status = record { instance_id = none; state = InstanceState.stopping; health = none };
  stopper = shown;
}

Run-overwritten : Run lines options fresh overwritten
unfolding spawned receive_event is_ended
Run-overwritten =
    next
      (next
        (next
          (next (next (next here (polls refl refl refl)) (checks refl refl refl))
            (receives gave_up at_time refl refl))
          (flags refl refl))
        (silences refl refl))
      (shows refl refl)
