-- ===== src/Control/Plane.antt =====
-- The control plane of crates/nyanpasu-core-manager/src/control: `CoreControl` (mod.rs) and the task
-- that runs its operations (executor.rs), over the channel between them. Each declaration that takes a
-- `Plane` is what one thread does without a wait that another thread can come between; `Step` is one
-- of these, by any thread. What an operation gives is chosen by its environment.
pub mod Apart
pub mod Admitting
pub mod Executing
pub mod Steps
pub mod Invariant
pub mod Leaving
pub mod Progress
pub mod Entries
pub mod Submit
mod Buffer
mod Tests
use clash_nyanpasu_service.Shared.{
  ℕ, ◌+◌, ◌≡◌, ◌<◌, Bytes, codes, Bool, true, false, not, ◌&&◌, Option, none, some, List, [], ◌∷◌,
  ◌++◌, if◌then◌else◌, max,
}
use clash_nyanpasu_service.Failure.{CoreErrorKind}
use clash_nyanpasu_service.Control.OperationId.{OperationId}
use clash_nyanpasu_service.Control.Command.{
  CoreCommand, CoreCommandEnvelope, CoreError, LocalIpcSettings, OperationOutput, OperationState,
  ReconcileRequest, reconcile, stop, recover, shutdown, running, succeeded, failed, shut_down,
  command_digest, new_error,
}
use clash_nyanpasu_service.Control.Registry.{
  Admission, ExecutorWork, Registry, SendOutcome, sent, registered, existing, refused, admit,
  new_registry, set_state,
}
use clash_nyanpasu_service.Control.Channel.{
  Channel, Received, Reserved, granted, received, recv_ended,
}

pub data ExecutorExit : Type 0 where
  clean died : ExecutorExit

-- Where the executor task is: in `recv`, in the operation that it awaits, past its loop with the
-- queue still open, in `drain`, or gone.
pub data Phase : Type 0 where
  idle : Phase
  executing : OperationId → CoreCommand → Phase
  leaving draining exited : ExecutorExit → Phase

-- What the task of one operation ends with.
pub data Outcome : Type 0 where
  completes : OperationOutput → Outcome
  fails : CoreError → Outcome
  panics : (join : Bytes) → Outcome

-- `live_registry_capacity`; `saturating_add` cannot saturate at a capacity that a channel can have.
pub live_registry_capacity : ℕ → ℕ → ℕ
live_registry_capacity registry_capacity queue_capacity = max registry_capacity (queue_capacity + 1)

pub is_shutdown : CoreCommand → Bool
is_shutdown shutdown = true
is_shutdown _ = false

or_settings : LocalIpcSettings → Option LocalIpcSettings → Option LocalIpcSettings
or_settings default none = some default
or_settings default (some s) = some s

with_settings : LocalIpcSettings → ReconcileRequest → ReconcileRequest
with_settings default r = record r {
  options = record (r.options) { local_ipc = or_settings default r.options.local_ipc };
}

-- `options.local_ipc.get_or_insert(..)` of `submit`.
pub resolve_settings : LocalIpcSettings → CoreCommand → CoreCommand
unfolding or_settings with_settings
resolve_settings default (reconcile r) = reconcile (with_settings default r)
resolve_settings default stop = stop
resolve_settings default recover = recover
resolve_settings default shutdown = shutdown

pub shutting_down_error : OperationId → CoreError
shutting_down_error id =
    new_error CoreErrorKind.shutting_down (codes "the control plane is shutting down") false id

panic_error : Bytes → OperationId → CoreError
panic_error join id =
    new_error CoreErrorKind.internal (codes "the control operation panicked: " ++ join) false id

pub died_error : OperationId → CoreError
died_error id = new_error CoreErrorKind.internal (codes "the control executor died") false id

unran_error : OperationId → CoreError
unran_error id =
    new_error CoreErrorKind.shutting_down
      (codes "the control plane shut down before this queued operation ran") false id

-- What `drain` gives an operation that is still queued.
pub drained_state : ExecutorExit → ExecutorWork → OperationState
unfolding is_shutdown
drained_state clean w =
    if is_shutdown w.command then succeeded shut_down else failed (unran_error w.id)
drained_state died w = failed (died_error w.id)

-- `if is_shutdown { break; }`, or the next round.
after_operation : CoreCommand → Phase
after_operation command = if is_shutdown command then leaving clean else idle

module _ (c : Channel) where
  open c use {State, try_send, send, drop_permit, initial, close}

  pub record Plane : Type 0 where
    pub registry : Registry
    pub queue : State
    pub closing : Bool
    pub phase : Phase

  -- `CoreControl::spawn`; the channel is built with the queue's capacity.
  pub spawn : ℕ → Plane
  unfolding live_registry_capacity
  spawn registry_capacity = record {
    registry = new_registry (live_registry_capacity registry_capacity c.capacity);
    queue = initial;
    closing = false;
    phase = idle;
  }

  -- The closing latch, stored by `submit`, by `shutdown` and by an executor that dies.
  pub latch : Plane → Plane
  latch p = record p { closing = true }

  -- The part of `submit` behind its test of the latch, up to and with the registry's lock.
  pub admit_command : Plane → OperationId → CoreCommand → Plane × Admission
  admit_command p id command =
      let (r, q, admission) =
        admit p.registry id (command_digest command)
          (try_send (record { id = id; command = command })) p.queue in
      (record p { registry = r; queue = q }, admission)

  latch_if : Bool → Admission → Plane → Plane
  unfolding latch
  latch_if true (registered n) p = latch p
  latch_if true (existing n) p = p
  latch_if true (refused e) p = p
  latch_if false _ p = p

  -- `CoreControl::submit`, with no other thread between its parts.
  pub submit : LocalIpcSettings → Plane → CoreCommandEnvelope → Plane × Admission
  unfolding latch_if
  submit default p envelope =
      if p.closing
      then (p, refused (shutting_down_error envelope.operation_id))
      else let command = resolve_settings default envelope.command in
        let (q, admission) = admit_command p envelope.operation_id command in
        (latch_if (is_shutdown command) admission q, admission)

  permit_sender : ExecutorWork → State → State × SendOutcome
  permit_sender w s = (send w s, sent)

  -- A permit that the closure did not use is dropped with it.
  settle_permit : Admission → Plane → Plane
  settle_permit (registered n) p = p
  settle_permit (existing n) p = record p { queue = drop_permit p.queue }
  settle_permit (refused e) p = record p { queue = drop_permit p.queue }

  -- `CoreControl::shutdown` from the permit that it was granted: the command is admitted under a
  -- generated id, and sent by the permit.
  pub send_shutdown : Plane → OperationId → Plane × Admission
  unfolding permit_sender settle_permit
  send_shutdown p id =
      let (r, q, admission) =
        admit p.registry id (command_digest shutdown)
          (permit_sender (record { id = id; command = shutdown })) p.queue in
      (settle_permit admission (record p { registry = r; queue = q }), admission)

  -- The executor's loop from a message to the start of its operation.
  pub receive : Plane → ExecutorWork → Plane
  unfolding is_shutdown
  receive p w =
      if not (is_shutdown w.command) && p.closing
      then record p { registry = set_state p.registry w.id (failed (shutting_down_error w.id)) }
      else record p {
        registry = set_state p.registry w.id running;
        phase = executing w.id w.command;
      }

  -- The executor's loop from the end of its operation.
  pub finish : Plane → OperationId → CoreCommand → Outcome → Plane
  unfolding is_shutdown after_operation
  finish p id command (completes output) = record p {
    registry = set_state p.registry id (succeeded output);
    phase = after_operation command;
  }
  finish p id command (fails error) = record p {
    registry = set_state p.registry id (failed error);
    phase = after_operation command;
  }
  finish p id command (panics join) = record p {
    registry = set_state p.registry id (failed (panic_error join id));
    closing = true;
    phase = leaving died;
  }

  -- One round of the loop of `drain`.
  pub drain_one : Plane → ExecutorExit → ExecutorWork → Plane
  drain_one p exit w = record p { registry = set_state p.registry w.id (drained_state exit w) }

  -- One step of one thread. A thread that read the latch before it was set may admit its command
  -- afterwards, so `admits` has no test of it.
  pub data Step (p q : Plane) : Type 0 where
    admits :
        (id : OperationId) (command : CoreCommand) → q ≡ (admit_command p id command).0 → Step p q
    latches : q ≡ latch p → Step p q
    reserves : (s : State) → c.reserve p.queue ≡ granted s → q ≡ record p { queue = s } → Step p q
    sends : (id : OperationId) → 0 < c.permits p.queue → q ≡ (send_shutdown p id).0 → Step p q
    receives :
        (w : ExecutorWork) (s : State)
        → p.phase ≡ idle
        → c.recv p.queue ≡ received w s
        → q ≡ receive (record p { queue = s }) w
        → Step p q
    ends :
        p.phase ≡ idle
        → c.recv p.queue ≡ recv_ended
        → q ≡ record p { phase = leaving clean }
        → Step p q
    finishes :
        (id : OperationId) (command : CoreCommand) (outcome : Outcome)
        → p.phase ≡ executing id command
        → q ≡ finish p id command outcome
        → Step p q
    closes :
        (exit : ExecutorExit)
        → p.phase ≡ leaving exit
        → q ≡ record p { queue = close p.queue; phase = draining exit }
        → Step p q
    drains :
        (exit : ExecutorExit) (w : ExecutorWork) (s : State)
        → p.phase ≡ draining exit
        → c.recv p.queue ≡ received w s
        → q ≡ drain_one (record p { queue = s }) exit w
        → Step p q
    drained :
        (exit : ExecutorExit)
        → p.phase ≡ draining exit
        → c.recv p.queue ≡ recv_ended
        → q ≡ record p { phase = exited exit }
        → Step p q

  pub data Reach (p : Plane) : Plane → Type 0 where
    here : Reach p p
    next : {q r : Plane} → Reach p q → Step q r → Reach p r
