-- ===== src/Instance/Tests.antt =====
-- The tail of the log frames and a stop, with the theorems at them.
use clash_nyanpasu_service.Shared.{ℕ, ◌≡◌, codes, false, some, List, [], ◌∷◌, ◌++◌}
use clash_nyanpasu_service.Manager.Status.{InstanceState}
use clash_nyanpasu_service.Manager.Quarantine.{killed}
use clash_nyanpasu_service.Instance.Logs.{push_frames}
use clash_nyanpasu_service.Instance.Logs.Tail.{last_frames, push_frames-last}
use clash_nyanpasu_service.Instance.Stopping.{
  exceeded, present, Paths, RunFiles, Instances, stop_and_confirm_dead,
}
use clash_nyanpasu_service.Instance.Stopping.Proof.{Settled, stop_and_confirm_dead-Settled}

abbrev one : List ℕ
one = 1 ∷ []

abbrev two : List ℕ
two = 2 ∷ 3 ∷ []

push_frames-last_example : push_frames two (last_frames one) ≡ last_frames (one ++ two)
push_frames-last_example = push_frames-last one two

-- A core that the supervisor cannot stop in time, and that the reaper kills.
abbrev stuck : Instances InstanceState
stuck = record {
  state = λ s. s;
  silence = λ s. InstanceState.stopping;
  stop_supervisor = λ s. (s, some (exceeded (codes "10s")));
  join_monitor = λ s. (s, some false);
  publish = λ s h. s;
  try_exists = λ path s. (s, present);
  reap_epoch_pid_file = λ pid_file dir s. (s, killed);
}

abbrev named : Paths
named = record { file_name = λ path. some path; parent = λ path. some [] }

abbrev files : RunFiles
files = record { config_path = codes "config-3.yaml"; pid_file = some (codes "core-3.pid") }

stop_and_confirm_dead-Settled_example :
    Settled stuck named files 3
      (InstanceState.running 42)
      (stop_and_confirm_dead stuck named files 3 (InstanceState.running 42)).1
stop_and_confirm_dead-Settled_example =
    stop_and_confirm_dead-Settled stuck named files 3 (InstanceState.running 42)
