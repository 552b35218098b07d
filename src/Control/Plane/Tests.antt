-- ===== src/Control/Plane/Tests.antt =====
-- Runs of the control plane over a bounded queue.
use clash_nyanpasu_service.Shared.{◌≡◌, ◌≢◌, refl, sym, true, false, ◌⊎◌, some, [], ◌∷◌, codes}
use clash_nyanpasu_service.Shared.Assoc.{lookup, insert}
use clash_nyanpasu_service.Control.OperationId.{OperationId, id_key, id_eq}
use clash_nyanpasu_service.Control.Command.{
  LocalIpcSettings, prefer, CoreCommandEnvelope, command_digest, failed, stop, shutdown, recover,
  is_terminal, queued,
}
use clash_nyanpasu_service.Control.Command.Identity.{digests-distinct}
use clash_nyanpasu_service.Control.Registry.{
  new_registry, evict, evict_loop, register, finish_admit, admit_new, admit, set_state,
  RegisteredOperation, registered, existing, refused, conflict_error,
}
use clash_nyanpasu_service.Control.Registry.Live.{live_count, Coherent}
use clash_nyanpasu_service.Control.Plane.{
  is_shutdown, Plane, executing, leaving, draining, exited, died, panics, spawn, submit,
  admit_command, latch, latch_if, finish, receive, drain_one, drained_state, died_error,
  resolve_settings, Step, Reach, here, next, admits, latches, receives, finishes, closes, drains,
  drained,
}
use clash_nyanpasu_service.Control.Plane.Leaving.{OwnRun}
use clash_nyanpasu_service.Control.Plane.Invariant.{Inv}
use clash_nyanpasu_service.Control.Plane.Progress.{
  spawn-Reach-Inv, exited-all_ended, leaving-drains, latched-runs_shutdown,
}
use clash_nyanpasu_service.Control.Plane.Entries.{Persists, entry-Persists}
use clash_nyanpasu_service.Control.Plane.Submit.{submit_again, Submitted, submit-outcome}
use clash_nyanpasu_service.Control.Plane.Buffer.{Buffer, shut, bounded}

abbrev first_id : OperationId
first_id = record { nanos = 1; pid = 7; counter = 0 }

abbrev second_id : OperationId
second_id = record { nanos = 2; pid = 7; counter = 1 }

abbrev third_id : OperationId
third_id = record { nanos = 3; pid = 7; counter = 2 }

abbrev spawned : Plane bounded
spawned = spawn bounded 4

-- Two commands are submitted, the first is received, and a shutdown latches while it runs.
abbrev one_waits : Plane bounded
one_waits = (admit_command bounded spawned first_id stop).0

abbrev two_wait : Plane bounded
two_wait = (admit_command bounded one_waits second_id recover).0

abbrev after_recv : Buffer
after_recv = record {
  held = record { id = second_id; command = recover } ∷ [];
  reserved = 0;
  ended = false;
}

abbrev first_runs : Plane bounded
first_runs =
    receive bounded (record two_wait { queue = after_recv })
      (record { id = first_id; command = stop })

abbrev latched : Plane bounded
latched = latch bounded first_runs

-- The running operation panics, and the executor leaves its loop with one command unreceived.
abbrev left : Plane bounded
left = finish bounded latched first_id stop (panics (codes "index out of bounds"))

Reach-two : Reach bounded spawned two_wait
Reach-two = next (next here (admits first_id stop refl)) (admits second_id recover refl)

Step-first : Step bounded two_wait first_runs
unfolding spawn admit_command admit lookup evict evict_loop admit_new finish_admit register insert
    new_registry receive id_eq
Step-first = receives (record { id = first_id; command = stop }) after_recv refl refl refl

Reach-first : Reach bounded spawned first_runs
Reach-first = next Reach-two Step-first

phase_first : first_runs.phase ≡ executing first_id stop
unfolding spawn admit_command receive is_shutdown
phase_first = refl

phase_latched : latched.phase ≡ executing first_id stop
unfolding latch
phase_latched = phase_first

Reach-left : Reach bounded spawned left
Reach-left =
    next (next Reach-first (latches refl))
      (finishes first_id stop (panics (codes "index out of bounds")) phase_latched refl)

-- From there to the end of the task.
abbrev shut_queue : Plane bounded
shut_queue = record left { queue = shut left.queue; phase = draining died }

abbrev emptied : Plane bounded
emptied =
    drain_one bounded
      (record shut_queue { queue = record { held = []; reserved = 0; ended = true } }) died
      (record { id = second_id; command = recover })

abbrev gone : Plane bounded
gone = record emptied { phase = exited died }

abbrev second_entry : RegisteredOperation
second_entry = record {
  digest = command_digest recover;
  sequence = 1;
  state = failed (died_error second_id);
}

phase_left : left.phase ≡ leaving died
unfolding spawn admit_command admit lookup evict evict_loop admit_new finish_admit register insert
    new_registry receive latch finish is_shutdown set_state id_eq
phase_left = refl

Step-drains : Step bounded shut_queue emptied
unfolding spawn admit_command admit lookup evict evict_loop admit_new finish_admit register insert
    new_registry receive latch finish is_shutdown set_state id_eq
Step-drains =
    drains died (record { id = second_id; command = recover })
      (record { held = []; reserved = 0; ended = true }) refl refl refl

Step-drained : Step bounded emptied gone
unfolding spawn admit_command admit lookup evict evict_loop admit_new finish_admit register insert
    new_registry receive latch finish is_shutdown set_state id_eq drain_one
Step-drained = drained died refl refl refl

Reach-gone : Reach bounded spawned gone
Reach-gone = next (next (next Reach-left (closes died phase_left refl)) Step-drains) Step-drained

phase_gone : gone.phase ≡ exited died
phase_gone = refl

entry_gone : lookup second_id gone.registry.operations ≡ some second_entry
unfolding spawn admit_command admit lookup evict evict_loop admit_new finish_admit register insert
    new_registry receive latch finish is_shutdown set_state id_eq drain_one drained_state
entry_gone = refl

entry_waits :
    lookup second_id first_runs.registry.operations
    ≡ some (record { digest = command_digest recover; sequence = 1; state = queued })
unfolding spawn admit_command admit lookup evict evict_loop admit_new finish_admit register insert
    new_registry receive latch finish is_shutdown set_state id_eq
entry_waits = refl

latched_closing : latched.closing ≡ true
unfolding latch
latched_closing = refl

no_permit : left.queue.reserved ≡ 0
unfolding spawn admit_command admit lookup evict evict_loop admit_new finish_admit register insert
    new_registry receive latch finish is_shutdown set_state id_eq
no_permit = refl

spawn-Reach-Inv_example : Inv bounded left
spawn-Reach-Inv_example = spawn-Reach-Inv bounded 4 left Reach-left

exited-all_ended_example : is_terminal second_entry.state ≡ true
exited-all_ended_example =
    exited-all_ended bounded 4 gone died second_id second_entry Reach-gone phase_gone entry_gone

leaving-drains_example :
    (q : Plane bounded) × OwnRun bounded left q
    × (q.phase ≡ exited died)
    × (live_count q.registry.operations ≡ 0)
leaving-drains_example = leaving-drains bounded 4 left died Reach-left phase_left no_permit

latched-runs_shutdown_example : (latched.phase ≡ executing first_id stop) ⊎ (stop ≡ shutdown)
latched-runs_shutdown_example =
    latched-runs_shutdown bounded latched latched first_id stop latched_closing here phase_latched

entry-Persists_example :
    Persists latched.registry second_id
      (record { digest = command_digest recover; sequence = 1; state = queued })
entry-Persists_example =
    entry-Persists bounded 4 first_runs latched second_id _ Reach-first (latches refl) entry_waits

abbrev settings : LocalIpcSettings
settings = record { policy = prefer; keep_http_controller = false }

abbrev stop_envelope : CoreCommandEnvelope
stop_envelope = record { operation_id = first_id; command = stop }

abbrev recover_envelope : CoreCommandEnvelope
recover_envelope = record { operation_id = first_id; command = recover }

abbrev shutdown_envelope : CoreCommandEnvelope
shutdown_envelope = record { operation_id = third_id; command = shutdown }

submit-outcome_example :
    Submitted bounded settings two_wait shutdown_envelope
      (submit bounded settings two_wait shutdown_envelope)
submit-outcome_example = submit-outcome bounded settings two_wait shutdown_envelope

spawned_Coherent : Coherent spawned.registry
unfolding spawn new_registry
spawned_Coherent = record { order_keys = refl; distinct = tt }

submitted_stop : submit bounded settings spawned stop_envelope ≡ (one_waits, registered 0)
unfolding spawn admit_command admit lookup evict evict_loop admit_new finish_admit register insert
    new_registry receive latch finish is_shutdown set_state id_eq submit latch_if resolve_settings
submitted_stop = refl

plain_stop : is_shutdown (resolve_settings settings stop) ≡ false
unfolding is_shutdown resolve_settings
plain_stop = refl

settled_differ :
    command_digest (resolve_settings settings recover)
    ≢ command_digest (resolve_settings settings stop)
unfolding resolve_settings
settled_differ e = digests-distinct.0 (sym e)

submit_again_example :
    (submit bounded settings one_waits stop_envelope ≡ (one_waits, existing 0))
    × (submit bounded settings one_waits recover_envelope
        ≡ (one_waits, refused (conflict_error first_id)))
submit_again_example =
    submit_again bounded settings spawned stop_envelope recover_envelope one_waits 0
      spawned_Coherent plain_stop refl settled_differ submitted_stop
