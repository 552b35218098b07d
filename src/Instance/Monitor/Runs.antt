-- ===== src/Instance/Monitor/Runs.antt =====
-- Every step of a monitor and of the threads beside it keeps the invariant, so that it holds in every run.
use clash_nyanpasu_service.Shared.{
  ℕ, ◌<◌, ◌≡◌, refl, ap, subst, Bool, false, Option, some, [], ◌∷◌, ◌++◌, All-append, arith,
}
use clash_nyanpasu_service.Health.{TrackerUpdate}
use clash_nyanpasu_service.Instance.{
  ProbeObservation, ProbeDriver, u64_max, next_run, SupervisorEvent, started, restarting, exited,
  gave_up, stopped, ready,
}
use clash_nyanpasu_service.Instance.Logs.{print, LogParser, flush_log_record}
use clash_nyanpasu_service.Instance.Monitor.{
  MonitorOptions, Clock, Monitor, Deadline, initial, respawn, Origin, observed, drained,
  receive_event, publish_terminal, expire, cancelled,
}
use clash_nyanpasu_service.Instance.Monitor.Apply.{
  apply_observation, apply_to, apply_update, show_health, resume, acknowledged,
}
use clash_nyanpasu_service.Instance.Monitor.Moves.{
  Move, cancels, polls, wakes, receives, closes, elapses, drains, expires, observes, answers,
  probes, prints, flushes, checks, flags, silences, shows, takes, joins, aborts, confirms, drops,
  Run, here, next,
}
use clash_nyanpasu_service.Instance.Monitor.Inv.{IfTrue, NoDriver, Inv}
use clash_nyanpasu_service.Instance.Monitor.Inv.Arms.{
  cancelled-Inv, queued-Inv, publish_terminal-Inv, receive_event-Inv, expire-Inv,
}
use clash_nyanpasu_service.Instance.Monitor.Inv.Applying.{apply_observation-Inv, acknowledged-Inv}

NoDriver-open :
    (b : Bool) (d : Option ProbeDriver) (driver : ProbeDriver)
    → IfTrue b (NoDriver d)
    → d ≡ some driver
    → b ≡ false
NoDriver-open b d driver h e = ground arith

next_run-small : (n : ℕ) → next_run n < u64_max → n < u64_max
unfolding next_run
next_run-small n h = ground arith

module _ (l : LogParser) (options : MonitorOptions) where
  abbrev next_of : Monitor l options → ℕ
  next_of m = m.next_run_id

  -- The counter of the runs has not come to its limit.
  abbrev pub Small : Monitor l options → Type 0
  Small m = m.next_run_id < u64_max

  probed-Inv :
      (driver : ProbeDriver) (o : ProbeObservation) (m : Monitor l options)
      → Inv l options m
      → m.driver ≡ some driver
      → o.run_id ≡ driver.run_id
      → Inv l options (record m { observations = m.observations ++ o ∷ [] })
  probed-Inv driver o m v e same =
      queued-Inv l options m.logs (m.observations ++ o ∷ []) m v
        (rw (NoDriver-open m.probes_cancelled m.driver driver v.undriven e) tt)
        (All-append _ m.observations (o ∷ []) v.observations_known
          (ground (arith, v.driver_known), tt))

  Move-Inv :
      (m n : Monitor l options)
      → Move l options m n
      → m.next_run_id < u64_max
      → Inv l options m
      → Inv l options n
  Move-Inv m n (cancels at t e) small v = rw e (cancelled-Inv l options m v at t)
  Move-Inv m n (polls at t e) small v = rw e (ground arith)
  Move-Inv m n (wakes at e) small v = rw e (ground arith)
  Move-Inv m n (receives event clock at e) small v =
      rw e (receive_event-Inv l options event clock m v at small)
  Move-Inv m n (closes at e) small v = rw e (publish_terminal-Inv l options m v at)
  Move-Inv m n (elapses deadline at due e) small v = rw e (ground arith)
  Move-Inv m n (drains deadline o os at q e) small v =
      rw e (apply_observation-Inv l options (drained deadline) o os m v at q)
  Move-Inv m n (expires deadline at q e) small v = rw e (expire-Inv l options deadline m v at)
  Move-Inv m n (observes o os at q e) small v =
      rw e (apply_observation-Inv l options observed o os m v at q)
  Move-Inv m n (answers answer pid o update origin at held e) small v =
      rw e (acknowledged-Inv l options answer pid o update origin m v at)
  Move-Inv m n (probes driver phase completed_at completed_at_ms result d e) small v =
      rw e (probed-Inv driver _ m v d refl)
  Move-Inv m n (prints stream line e) small v = rw e (
      queued-Inv l options (print l stream line m.logs) m.observations m v v.unprobed
        v.observations_known)
  Move-Inv m n (flushes e) small v = rw e (
      queued-Inv l options (flush_log_record l m.logs) m.observations m v v.unprobed
        v.observations_known)
  Move-Inv m n (checks at t e) small v = rw e (ground arith)
  Move-Inv m n (flags at e) small v = rw e (ground arith)
  Move-Inv m n (silences at e) small v = rw e (ground arith)
  Move-Inv m n (shows at e) small v = rw e (ground arith)
  Move-Inv m n (takes at free e) small v = rw e (ground arith)
  Move-Inv m n (joins at gone e) small v = rw e (ground arith)
  Move-Inv m n (aborts at e) small v = rw e (ground arith)
  Move-Inv m n (confirms at gone t e) small v = rw e (ground arith)
  Move-Inv m n (drops e) small v = rw e (ground arith)

  receive_event-Small :
      (event : SupervisorEvent) (clock : Clock) (m : Monitor l options)
      → (receive_event l options event clock m).next_run_id < u64_max
      → m.next_run_id < u64_max
  unfolding receive_event publish_terminal
  receive_event-Small (started pid) clock m h = next_run-small m.next_run_id h
  receive_event-Small (restarting attempt) clock m h = h
  receive_event-Small (exited payload) clock m h = h
  receive_event-Small gave_up clock m h = h
  receive_event-Small stopped clock m h = ground arith
  receive_event-Small ready clock m h = h

  apply_observation-next :
      (origin : Origin) (o : ProbeObservation) (m : Monitor l options)
      → (apply_observation l options origin o m).next_run_id ≡ m.next_run_id
  unfolding apply_observation apply_to apply_update show_health resume
  apply_observation-next origin o m = ground arith

  publish_terminal-Small : (m : Monitor l options) → Small (publish_terminal l options m) → Small m
  unfolding publish_terminal
  publish_terminal-Small m h = ground arith

  expire-Small :
      (deadline : Deadline) (m : Monitor l options) → Small (expire l options deadline m) → Small m
  unfolding expire
  expire-Small initial m h = ground arith
  expire-Small respawn m h = ground arith

  acknowledged-Small :
      (answer : Bool) (pid : ℕ) (o : ProbeObservation) (update : TrackerUpdate) (origin : Origin)
      (m : Monitor l options)
      → Small (acknowledged l options answer pid o update origin m)
      → Small m
  unfolding acknowledged resume
  acknowledged-Small answer pid o update origin m h = ground arith

  Move-Small : (m n : Monitor l options) → Move l options m n → Small n → Small m
  unfolding cancelled
  Move-Small m n (cancels at t e) small = subst Small e small
  Move-Small m n (polls at t e) small = subst Small e small
  Move-Small m n (wakes at e) small = subst Small e small
  Move-Small m n (receives event clock at e) small =
      receive_event-Small event clock m (subst Small e small)
  Move-Small m n (closes at e) small = publish_terminal-Small m (subst Small e small)
  Move-Small m n (elapses deadline at due e) small = subst Small e small
  Move-Small m n (drains deadline o os at q e) small = omega (
    arith,
    apply_observation-next (drained deadline) o (record m { observations = os }),
    ap next_of e,
  )
  Move-Small m n (expires deadline at q e) small = expire-Small deadline m (subst Small e small)
  Move-Small m n (observes o os at q e) small =
      omega
        (arith, apply_observation-next observed o (record m { observations = os }), ap next_of e)
  Move-Small m n (answers answer pid o update origin at held e) small =
      acknowledged-Small answer pid o update origin m (subst Small e small)
  Move-Small m n (probes driver phase completed_at completed_at_ms result d e) small =
      subst Small e small
  Move-Small m n (prints stream line e) small = subst Small e small
  Move-Small m n (flushes e) small = subst Small e small
  Move-Small m n (checks at t e) small = subst Small e small
  Move-Small m n (flags at e) small = subst Small e small
  Move-Small m n (silences at e) small = subst Small e small
  Move-Small m n (shows at e) small = subst Small e small
  Move-Small m n (takes at free e) small = subst Small e small
  Move-Small m n (joins at gone e) small = subst Small e small
  Move-Small m n (aborts at e) small = subst Small e small
  Move-Small m n (confirms at gone t e) small = subst Small e small
  Move-Small m n (drops e) small = subst Small e small

  pub Run-Inv :
      {m n : Monitor l options} → Run l options m n → Small n → Inv l options m → Inv l options n
  Run-Inv here small v = v
  Run-Inv (next {p} {q} r mv) small v =
      let before = Move-Small p q mv small in Move-Inv p q mv before (Run-Inv r before v)
