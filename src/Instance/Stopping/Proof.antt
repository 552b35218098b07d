-- ===== src/Instance/Stopping/Proof.antt =====
-- A stop that succeeds has proof that the process is dead, and every other stop is `StopUnconfirmed`.
use clash_nyanpasu_service.Shared.{
  ◌≡◌, refl, ◌⊎◌, inl, inr, Bytes, Bool, true, false, ◌&&◌, ◌||◌, Option, none, some, ◌++◌, if_elim,
}
use clash_nyanpasu_service.Failure.{Epoch, Error}
use clash_nyanpasu_service.Manager.Session.{is_ended}
use clash_nyanpasu_service.Manager.Quarantine.{
  Reaped, already_exited, killed, not_found, reap_failed,
}
use clash_nyanpasu_service.Instance.Stopping.{
  StopAnswer, done, process_exited, stop_failed, exceeded, Paths, RunFiles, Instances,
  epoch_pid_path, stop_error, confirmed, is_none, reap_epoch_record_if_present, verified,
  reap_decided, reap_under, kill_by_record, after_join, after_stop, stop_and_confirm_dead,
}

-- A stop of the supervisor without an error; there may be none to stop.
abbrev pub CleanStop : Option StopAnswer → Type 0
CleanStop none = Unit
CleanStop (some done) = Unit
CleanStop (some process_exited) = Unit
CleanStop (some (stop_failed text)) = ⊥
CleanStop (some (exceeded time)) = ⊥

-- An outcome of the reaper that shows the process dead; a missing record does if the monitor saw the end.
abbrev pub Dead : Reaped → (terminal : Bool) → Type 0
Dead already_exited terminal = Unit
Dead killed terminal = Unit
Dead not_found terminal = terminal ≡ true
Dead (reap_failed text) terminal = ⊥

stop_error-CleanStop :
    (answer : Option StopAnswer) → is_none (stop_error answer) ≡ true → CleanStop answer
unfolding stop_error is_none
stop_error-CleanStop none t = tt
stop_error-CleanStop (some done) t = tt
stop_error-CleanStop (some process_exited) t = tt
stop_error-CleanStop (some (stop_failed text)) t = absurd (cc t)
stop_error-CleanStop (some (exceeded time)) t = absurd (cc t)

module _ {Host : Type 0} (i : Instances Host) (p : Paths) (files : RunFiles) (epoch : Epoch) where
  open i use {state, silence, stop_supervisor, join_monitor, publish, reap_epoch_pid_file}

  -- The hosts after the supervisor was stopped, and after the monitor's task was joined.
  abbrev pub stopped_at : Host → Host
  stopped_at h = (stop_supervisor (silence h)).0

  abbrev pub joined_at : Host → Host
  joined_at h = (join_monitor (stopped_at h)).0

  -- What proves the death of the process when a stop succeeds.
  pub data Proven (h : Host) : Type 0 where
    -- The monitor had seen its end, and a pid record that was left is reaped without an error.
    was_over :
        is_ended (state h) ≡ true
        → (reap_epoch_record_if_present i p files epoch h).1 ≡ none
        → Proven h
    -- The stop of the supervisor gave no error, if it was there, and the monitor has ended.
    is_over :
        CleanStop (stop_supervisor (silence h)).1
        → ((join_monitor (stopped_at h)).1 ≡ some true) ⊎ (is_ended (state (joined_at h)) ≡ true)
        → (reap_epoch_record_if_present i p files epoch (joined_at h)).1 ≡ none
        → Proven h
    -- The process of the pid record was dead or was killed, or there was no record and the monitor had
    -- seen the end.
    reaped :
        (pid_file dir : Bytes)
        → epoch_pid_path p files epoch ≡ some pid_file
        → Dead (reap_epoch_pid_file pid_file dir (joined_at h)).1 (is_ended (state (joined_at h)))
        → Proven h

  -- What a stop comes to.
  abbrev pub Settled : Host → Option Error → Type 0
  Settled h none = Proven h
  Settled h (some error) = (text : Bytes) × (error ≡ Error.stop_unconfirmed text)

  verified-Settled :
      (h : Host) (what : Bytes) (r : Host × Option Bytes)
      → (r.1 ≡ none → Proven h)
      → Settled h (verified i p files epoch what r).1
  unfolding verified
  verified-Settled h what (k, none) proven = proven refl
  verified-Settled h what (k, some error) proven = (what ++ error, refl)

  reap_decided-Settled :
      (h : Host) (text : Bytes) (terminal : Bool) (r : Host × Reaped)
      → (Dead r.1 terminal → Proven h)
      → Settled h (reap_decided i p files epoch text terminal r).1
  unfolding reap_decided
  reap_decided-Settled h text terminal (k, reap_failed error) proven = (_, refl)
  reap_decided-Settled h text terminal (k, already_exited) proven = proven tt
  reap_decided-Settled h text terminal (k, killed) proven = proven tt
  reap_decided-Settled h text true (k, not_found) proven = proven refl
  reap_decided-Settled h text false (k, not_found) proven = (text, refl)

  reap_under-Settled :
      (h : Host) (text pid_file : Bytes) (terminal : Bool) (dir : Option Bytes) (k : Host)
      → ((d : Bytes) → Dead (reap_epoch_pid_file pid_file d k).1 terminal → Proven h)
      → Settled h (reap_under i p files epoch text terminal pid_file dir k).1
  unfolding reap_under
  reap_under-Settled h text pid_file terminal none k proven = (_, refl)
  reap_under-Settled h text pid_file terminal (some d) k proven =
      reap_decided-Settled h text terminal (reap_epoch_pid_file pid_file d k) (proven d)

  kill_by_record-Settled :
      (h : Host) (text : Bytes) (path : Option Bytes)
      → epoch_pid_path p files epoch ≡ path
      → Settled h
          (kill_by_record i p files epoch text
            (is_ended (state (joined_at h)))
            path
            (joined_at h)).1
  unfolding kill_by_record
  kill_by_record-Settled h text none e = (text, refl)
  kill_by_record-Settled h text (some pid_file) e =
      reap_under-Settled h text pid_file _ _ (joined_at h) (λ d. reaped pid_file d e)

  both :
      (a c : Bool) (joined : Option Bool)
      → a && (confirmed joined || c) ≡ true
      → (a ≡ true) × ((joined ≡ some true) ⊎ (c ≡ true))
  unfolding confirmed
  both true c (some true) t = (refl, inl refl)
  both true c (some false) t = (refl, inr t)
  both true c none t = (refl, inr t)
  both false c joined t = absurd (cc t)

  after_stop-Settled :
      (h : Host) → Settled h (after_stop i p files epoch (stop_supervisor (silence h))).1
  unfolding after_stop after_join
  after_stop-Settled h =
      if_elim (λ (r : Host × Option Error). Settled h r.1)
        (is_none (stop_error (stop_supervisor (silence h)).1)
          && (confirmed (join_monitor (stopped_at h)).1 || is_ended (state (joined_at h))))
        (λ t.
          let (e, over) = both _ _ _ t in
          verified-Settled h _ _ (is_over (stop_error-CleanStop _ e) over))
        (λ t. kill_by_record-Settled h _ (epoch_pid_path p files epoch) refl)

  -- `stop_and_confirm_dead` succeeds only where the death of the process is proven: the monitor had seen it,
  -- or the stop of the supervisor gave no error and the monitor ended, and the check of the pid record gave
  -- no error; or the reaper found the process of the record dead, killed it, or found no record where the
  -- monitor had seen the end. Every failure is `StopUnconfirmed`.
  pub stop_and_confirm_dead-Settled :
      (h : Host) → Settled h (stop_and_confirm_dead i p files epoch h).1
  unfolding stop_and_confirm_dead
  stop_and_confirm_dead-Settled h =
      if_elim (λ (r : Host × Option Error). Settled h r.1) (is_ended (state h))
        (λ t. verified-Settled h _ _ (was_over t)) (λ t. after_stop-Settled h)
