-- ===== src/Instance/Stopping.antt =====
-- `stop_and_confirm_dead`, `reap_epoch_record_if_present` and `epoch_pid_path` of
-- crates/nyanpasu-core-manager/src/instance.rs. The supervisor, the monitor's task and the files are a
-- host; paths are texts, and their parts are another crate's.
pub mod Proof
use clash_nyanpasu_service.Shared.{
  Bytes, codes, Bool, true, false, not, ◌&&◌, ◌||◌, Option, none, some, ◌++◌, bytes_eq,
  if◌then◌else◌,
}
use clash_nyanpasu_service.Shared.Decimal.{decimal}
use clash_nyanpasu_service.Failure.{Epoch, Error}
use clash_nyanpasu_service.Manager.Status.{InstanceState, StopReason, user}
use clash_nyanpasu_service.Manager.Session.{is_ended}
use clash_nyanpasu_service.Manager.Quarantine.{
  Reaped, already_exited, killed, not_found, reap_failed,
}

-- What `supervisor.stop` gives within its time; the texts are those of the error and of the time.
pub data StopAnswer : Type 0 where
  done process_exited : StopAnswer
  stop_failed exceeded : Bytes → StopAnswer

-- The result of `try_exists`; an error is the text that it displays.
pub data Exists : Type 0 where
  present missing : Exists
  exists_failed : Bytes → Exists

pub record Paths : Type 0 where
  pub file_name : Bytes → Option Bytes
  pub parent : Bytes → Option Bytes

pub record RunFiles : Type 0 where
  pub config_path : Bytes
  pub pid_file : Option Bytes

-- `stop_supervisor` takes the supervisor from its mutex and stops it, `join_monitor` waits for the task
-- and aborts it where it is late; both give nothing where there is none left. `silence` sets `user_stop`,
-- cancels the probes and publishes `stopping`.
pub record Instances (Host : Type 0) : Type 0 where
  pub state : Host → InstanceState
  pub silence : Host → Host
  pub stop_supervisor : Host → Host × Option StopAnswer
  pub join_monitor : Host → Host × Option Bool
  pub publish : InstanceState → Host → Host
  pub try_exists : Bytes → Host → Host × Exists
  pub reap_epoch_pid_file : (pid_file runtime_dir : Bytes) → Host → Host × Reaped

optional_eq : Option Bytes → Option Bytes → Bool
optional_eq none none = true
optional_eq (some a) (some b) = bytes_eq a b
optional_eq _ _ = false

-- The pid file of the epoch, by the names of the two files.
own_pid_file : Paths → Epoch → Bytes → Bytes → Option Bytes
unfolding optional_eq
own_pid_file p epoch config_path pid_file =
    if optional_eq (p.file_name pid_file) (some (codes "core-" ++ (decimal epoch ++ codes ".pid")))
      && optional_eq (p.file_name config_path)
          (some (codes "config-" ++ (decimal epoch ++ codes ".yaml")))
      && optional_eq (p.parent pid_file) (p.parent config_path)
    then some pid_file
    else none

-- `epoch_pid_path`.
pid_path_of : Paths → Epoch → Bytes → Option Bytes → Option Bytes
unfolding own_pid_file
pid_path_of p epoch config_path none = none
pid_path_of p epoch config_path (some pid_file) = own_pid_file p epoch config_path pid_file

pub epoch_pid_path : Paths → RunFiles → Epoch → Option Bytes
unfolding pid_path_of
epoch_pid_path p files epoch = pid_path_of p epoch files.config_path files.pid_file

no_parent : Bytes
no_parent = codes "runtime config has no parent directory"

-- The result of the stop of the supervisor as an error's text.
stop_error : Option StopAnswer → Option Bytes
stop_error none = none
stop_error (some done) = none
stop_error (some process_exited) = none
stop_error (some (stop_failed error)) = some (codes "supervisor stop failed: " ++ error)
stop_error (some (exceeded time)) = some (codes "supervisor stop exceeded " ++ time)

confirmed : Option Bool → Bool
confirmed none = false
confirmed (some in_time) = in_time

is_none : Option Bytes → Bool
is_none none = true
is_none (some text) = false

text_or : Bytes → Option Bytes → Bytes
text_or text none = text
text_or text (some other) = other

-- Whether the outcome of a reap proves that the process is dead.
proves_death : Reaped → (terminal : Bool) → Bool
proves_death already_exited terminal = true
proves_death killed terminal = true
proves_death not_found terminal = terminal
proves_death (reap_failed error) terminal = false

module _ {Host : Type 0} (i : Instances Host) (p : Paths) (files : RunFiles) (epoch : Epoch) where
  open i use {
    state, silence, stop_supervisor, join_monitor, publish, try_exists, reap_epoch_pid_file,
  }

  reaped_text : Host × Reaped → Host × Option Bytes
  reaped_text (h, reap_failed error) = (h, some error)
  reaped_text (h, already_exited) = (h, none)
  reaped_text (h, killed) = (h, none)
  reaped_text (h, not_found) = (h, none)

  reap_in : Bytes → Option Bytes → Host → Host × Option Bytes
  unfolding reaped_text no_parent
  reap_in pid_file none h =
      (h, some (codes "core process death could not be confirmed: " ++ no_parent))
  reap_in pid_file (some dir) h = reaped_text (reap_epoch_pid_file pid_file dir h)

  reap_existing : Bytes → Host × Exists → Host × Option Bytes
  unfolding reap_in
  reap_existing pid_file (h, exists_failed error) = (h, some error)
  reap_existing pid_file (h, missing) = (h, none)
  reap_existing pid_file (h, present) = reap_in pid_file (p.parent files.config_path) h

  reap_record : Option Bytes → Host → Host × Option Bytes
  unfolding reap_existing
  reap_record none h = (h, none)
  reap_record (some pid_file) h = reap_existing pid_file (try_exists pid_file h)

  -- `reap_epoch_record_if_present`: the host, and the text of an error.
  pub reap_epoch_record_if_present : Host → Host × Option Bytes
  unfolding reap_record
  reap_epoch_record_if_present h = reap_record (epoch_pid_path p files epoch) h

  -- An error of the record's check becomes `StopUnconfirmed`.
  verified : Bytes → Host × Option Bytes → Host × Option Error
  verified what (h, none) = (h, none)
  verified what (h, some error) = (h, some (Error.stop_unconfirmed (what ++ error)))

  reap_decided : Bytes → Bool → Host × Reaped → Host × Option Error
  unfolding proves_death
  reap_decided text terminal (h, reap_failed error) = (
    h,
    some (Error.stop_unconfirmed (text ++ (codes "; epoch identity reaper failed: " ++ error))),
  )
  reap_decided text terminal (h, reaped) =
      if proves_death reaped terminal
      then (if terminal then h else publish (InstanceState.stopped user) h, none)
      else (h, some (Error.stop_unconfirmed text))

  reap_under : Bytes → Bool → Bytes → Option Bytes → Host → Host × Option Error
  unfolding reap_decided no_parent
  reap_under text terminal pid_file none h = (h, some (Error.stop_unconfirmed no_parent))
  reap_under text terminal pid_file (some dir) h =
      reap_decided text terminal (reap_epoch_pid_file pid_file dir h)

  -- The pid record as the last authority.
  kill_by_record : Bytes → Bool → Option Bytes → Host → Host × Option Error
  unfolding reap_under
  kill_by_record text terminal none h = (h, some (Error.stop_unconfirmed text))
  kill_by_record text terminal (some pid_file) h =
      reap_under text terminal pid_file (p.parent files.config_path) h

  after_join : Option Bytes → Host × Option Bool → Host × Option Error
  unfolding kill_by_record verified confirmed is_none text_or reap_epoch_record_if_present
  after_join error (h, joined) =
      let terminal = is_ended (state h) in
      if is_none error && (confirmed joined || terminal)
      then verified (codes "stopped instance identity verification failed: ")
          (reap_epoch_record_if_present h)
      else kill_by_record (text_or (codes "instance monitor did not confirm termination") error)
          terminal (epoch_pid_path p files epoch) h

  after_stop : Host × Option StopAnswer → Host × Option Error
  unfolding after_join stop_error
  after_stop (h, answer) = after_join (stop_error answer) (join_monitor h)

  -- `stop_and_confirm_dead`: the host, and the error.
  pub stop_and_confirm_dead : Host → Host × Option Error
  unfolding after_stop verified reap_epoch_record_if_present
  stop_and_confirm_dead h =
      if is_ended (state h)
      then verified (codes "terminal instance identity verification failed: ")
          (reap_epoch_record_if_present h)
      else after_stop (stop_supervisor (silence h))
