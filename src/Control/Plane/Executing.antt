-- ===== src/Control/Plane/Executing.antt =====
-- What the executor does keeps the invariant.
use clash_nyanpasu_service.Shared.{
  ◌≡◌, refl, ap, sym, subst, inl, inr, Bool, true, some, arith, length, if◌then◌else◌, not, ◌&&◌,
  Bool-cases,
}
use clash_nyanpasu_service.Shared.Assoc.{lookup}
use clash_nyanpasu_service.Control.OperationId.{OperationId, id_key}
use clash_nyanpasu_service.Control.Command.{
  OperationState, CoreCommand, running, succeeded, failed, is_terminal,
}
use clash_nyanpasu_service.Control.Registry.{RegisteredOperation, Registry, ExecutorWork, set_state}
use clash_nyanpasu_service.Control.Registry.Live.{weight}
use clash_nyanpasu_service.Control.Registry.Settle.{set_state-Sets}
use clash_nyanpasu_service.Control.Channel.{Channel, received, granted}
use clash_nyanpasu_service.Control.Plane.{
  Plane, Phase, Outcome, ExecutorExit, clean, died, completes, fails, panics, idle, executing,
  leaving, draining, receive, finish, drain_one, drained_state, after_operation, is_shutdown,
  shutting_down_error, panic_error,
}
use clash_nyanpasu_service.Control.Plane.Invariant.{Current, busy, Quiet, Inv}
use clash_nyanpasu_service.Control.Plane.Apart.{
  weight-queued, weight-running, popped, not_running, kept_apart,
}
use clash_nyanpasu_service.Control.Plane.Admitting.{Quiet-open, Quiet-popped}

module _ (c : Channel) where
  open c use {messages, permits, is_closed}

  -- The oldest message leaves the queue, and its operation gets a state.
  popped-Inv :
      (p : Plane c) (w : ExecutorWork) (s : c.State) (state : OperationState) (ph : Phase)
      → Inv c p
      → busy p.phase ≡ 0
      → c.recv p.queue ≡ received w s
      → (if is_terminal state then 0 else 1) ≡ busy ph
      → ((op : RegisteredOperation)
          → lookup w.id (set_state p.registry w.id state).operations
            ≡ some (record op { state = state })
          → Current (set_state p.registry w.id state) ph)
      → Quiet c s ph
      → Inv c (record p { registry = set_state p.registry w.id state; queue = s; phase = ph })
  popped-Inv p w s state ph v idle' got light cur quiet =
      let (m, n, h) = c.recv_received p.queue w s got in
      let (all, uniq) = popped p.registry w (messages p.queue) (messages s) m v.entries v.unique in
      let (op, e, st) = all.0 in
      let (sets, entry, count) = set_state-Sets p.registry w.id state op v.coherent e in
      record {
        coherent = sets.coherent;
        room = omega (arith, sets.same_capacity, v.room);
        bounded = omega (arith, sets.same_capacity, sets.same_length, v.bounded);
        fits = omega (arith, ap length m, n, v.fits);
        entries =
            kept_apart p.registry (set_state p.registry w.id state) w.id (messages s) sets.others
              uniq.0 all.1;
        unique = uniq.1;
        current = cur op entry;
        counted = omega (arith, count, weight-queued op st, light, ap length m, v.counted, idle');
        quiet = quiet;
      }

  -- The operation that ran has ended.
  ended-Inv :
      (p : Plane c) (id : OperationId) (command : CoreCommand) (state : OperationState)
      (closing : Bool) (ph : Phase)
      → Inv c p
      → p.phase ≡ executing id command
      → is_terminal state ≡ true
      → busy ph ≡ 0
      → Current (set_state p.registry id state) ph
      → Quiet c p.queue ph
      → Inv c (record p { registry = set_state p.registry id state; closing = closing; phase = ph })
  ended-Inv p id command state closing ph v at done idle' cur quiet =
      let (op, e, st) = subst (Current p.registry) at v.current in
      let (sets, entry, count) = set_state-Sets p.registry id state op v.coherent e in
      let was : busy p.phase ≡ 1 = ap busy at in
      let light : weight (record op { state = state }) ≡ 0 = rw done in
      record {
        coherent = sets.coherent;
        room = omega (arith, sets.same_capacity, v.room);
        bounded = omega (arith, sets.same_capacity, sets.same_length, v.bounded);
        fits = v.fits;
        entries =
            kept_apart p.registry (set_state p.registry id state) id (messages p.queue) sets.others
              (not_running p.registry id op (messages p.queue) e st v.entries) v.entries;
        unique = v.unique;
        current = cur;
        counted = omega (arith, count, weight-running op st, light, was, v.counted, idle');
        quiet = quiet;
      }

  pub receive-Inv :
      (p : Plane c) (w : ExecutorWork) (s : c.State)
      → Inv c p
      → p.phase ≡ idle
      → c.recv p.queue ≡ received w s
      → Inv c (receive c (record p { queue = s }) w)
  unfolding receive is_terminal
  receive-Inv p w s v at got = elim (Bool-cases (not (is_shutdown w.command) && p.closing)) [
    | inl e ↦
        let (m, n, h) = c.recv_received p.queue w s got in
        rw e (
          popped-Inv p w s (failed (shutting_down_error w.id)) p.phase v (ap busy at) got
            (sym (ap busy at))
            (λ op x.
              subst (Current (set_state p.registry w.id (failed (shutting_down_error w.id))))
                (sym at) tt)
            (Quiet-popped c p.queue s w p.phase m h v.quiet))
    | inr e ↦ rw e (
        popped-Inv p w s running (executing w.id w.command) v (ap busy at) got refl
          (λ op x. (record op { state = running }, x, refl)) tt)
  ]

  busy-after : (command : CoreCommand) → busy (after_operation command) ≡ 0
  unfolding after_operation
  busy-after command = ground arith

  -- No operation runs after one.
  Current-after : (r : Registry) (command : CoreCommand) → Current r (after_operation command)
  unfolding after_operation
  Current-after r command = elim (Bool-cases (is_shutdown command)) [
    | inl e ↦ rw e tt
    | inr e ↦ rw e tt
  ]

  Quiet-after : (s : c.State) (command : CoreCommand) → Quiet c s (after_operation command)
  unfolding after_operation
  Quiet-after s command = elim (Bool-cases (is_shutdown command)) [
    | inl e ↦ rw e tt
    | inr e ↦ rw e tt
  ]

  pub finish-Inv :
      (p : Plane c) (id : OperationId) (command : CoreCommand) (outcome : Outcome)
      → Inv c p
      → p.phase ≡ executing id command
      → Inv c (finish c p id command outcome)
  unfolding finish is_terminal
  finish-Inv p id command (completes output) v at =
      ended-Inv p id command (succeeded output) p.closing (after_operation command) v at refl
        (busy-after command) (Current-after (set_state p.registry id (succeeded output)) command)
        (Quiet-after p.queue command)
  finish-Inv p id command (fails error) v at =
      ended-Inv p id command (failed error) p.closing (after_operation command) v at refl
        (busy-after command) (Current-after (set_state p.registry id (failed error)) command)
        (Quiet-after p.queue command)
  finish-Inv p id command (panics join) v at =
      ended-Inv p id command (failed (panic_error join id)) true (leaving died) v at refl refl tt tt

  drained_state-terminal :
      (exit : ExecutorExit) (w : ExecutorWork) → is_terminal (drained_state exit w) ≡ true
  unfolding drained_state is_terminal
  drained_state-terminal clean w = ground arith
  drained_state-terminal died w = refl

  pub drain_one-Inv :
      (p : Plane c) (exit : ExecutorExit) (w : ExecutorWork) (s : c.State)
      → Inv c p
      → p.phase ≡ draining exit
      → c.recv p.queue ≡ received w s
      → Inv c (drain_one c (record p { queue = s }) exit w)
  unfolding drain_one
  drain_one-Inv p exit w s v at got =
      let (m, n, h) = c.recv_received p.queue w s got in
      popped-Inv p w s (drained_state exit w) p.phase v (ap busy at) got
        (rw (drained_state-terminal exit w) (sym (ap busy at)))
        (λ op x. subst (Current (set_state p.registry w.id (drained_state exit w))) (sym at) tt)
        (Quiet-popped c p.queue s w p.phase m h v.quiet)

  -- Only the phase changes, between two in which nothing runs.
  pub moved-Inv :
      (p : Plane c) (s : c.State) (ph : Phase)
      → Inv c p
      → busy p.phase ≡ 0
      → busy ph ≡ 0
      → messages s ≡ messages p.queue
      → permits s ≡ permits p.queue
      → Current p.registry ph
      → Quiet c s ph
      → Inv c (record p { queue = s; phase = ph })
  moved-Inv p s ph v was now m n cur quiet = record {
    coherent = v.coherent;
    room = v.room;
    bounded = v.bounded;
    fits = omega (arith, ap length m, n, v.fits);
    entries = rw m v.entries;
    unique = rw m v.unique;
    current = cur;
    counted = omega (arith, ap length m, was, now, v.counted);
    quiet = quiet;
  }

  pub reserved-Inv :
      (p : Plane c) (s : c.State)
      → Inv c p
      → c.reserve p.queue ≡ granted s
      → Inv c (record p { queue = s })
  reserved-Inv p s v got =
      let (m, n, fit, open') = c.reserve_granted p.queue s got in
      record {
        coherent = v.coherent;
        room = v.room;
        bounded = v.bounded;
        fits = omega (arith, ap length m, n, fit);
        entries = rw m v.entries;
        unique = rw m v.unique;
        current = v.current;
        counted = omega (arith, ap length m, v.counted);
        quiet = Quiet-open c p.queue s p.phase open' v.quiet;
      }
