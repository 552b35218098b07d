-- ===== src/Control/Plane/Admitting.antt =====
-- Admission, by a command or by a permit, keeps the invariant.
use clash_nyanpasu_service.Shared.{
  ℕ, ◌+◌, ◌≤◌, ◌<◌, ◌≡◌, refl, ap, ◌∙◌, false, none, some, [], ◌∷◌, ◌++◌, arith, length,
  length-append, All-append, All-map, Bytes,
}
use clash_nyanpasu_service.Shared.Assoc.{lookup}
use clash_nyanpasu_service.Control.OperationId.{OperationId, id_key}
use clash_nyanpasu_service.Control.Command.{CoreCommand, shutdown, is_terminal, command_digest}
use clash_nyanpasu_service.Control.Registry.{
  RegisteredOperation, Registry, Admission, ExecutorWork, new_registry,
}
use clash_nyanpasu_service.Control.Registry.Live.{live_count}
use clash_nyanpasu_service.Control.Registry.Evict.{Evicts, Evicts-refl, live_kept}
use clash_nyanpasu_service.Control.Registry.Admit.{
  Registers, AdmitCase, attaches, conflicts, registers, rejects, admit_cases,
}
use clash_nyanpasu_service.Control.Channel.{Channel}
use clash_nyanpasu_service.Control.Plane.{
  Plane, Phase, idle, executing, leaving, draining, exited, live_registry_capacity, spawn,
  admit_command, send_shutdown, settle_permit, permit_sender,
}
use clash_nyanpasu_service.Control.Plane.Invariant.{
  IsQueued, Quiet, Inv, not_queued, Unique-append, IsQueued-kept, Current-kept,
}
use clash_nyanpasu_service.Control.Plane.Apart.{busy-le}

module _ (c : Channel) where
  open c use {messages, permits, is_closed}

  pub spawn-Inv : (n : ℕ) → Inv c (spawn c n)
  unfolding spawn live_registry_capacity new_registry live_count
  spawn-Inv n =
      let (none_yet, no_permits) = c.initial_lem in
      record {
        coherent = record { order_keys = refl; distinct = tt };
        room = omega arith;
        bounded = omega arith;
        fits = rw none_yet (omega arith);
        entries = rw none_yet tt;
        unique = rw none_yet tt;
        current = tt;
        counted = rw none_yet (omega arith);
        quiet = tt;
      }

  pub Quiet-open :
      (s s' : c.State) (ph : Phase) → is_closed s ≡ false → Quiet c s ph → Quiet c s' ph
  Quiet-open s s' (draining exit) h q = cc (h, q)
  Quiet-open s s' (exited exit) h q = absurd (cc (h, q.0))
  Quiet-open s s' idle h q = tt
  Quiet-open s s' (executing id command) h q = tt
  Quiet-open s s' (leaving exit) h q = tt

  Quiet-same :
      (s s' : c.State) (ph : Phase)
      → messages s' ≡ messages s
      → permits s' ≤ permits s
      → is_closed s' ≡ is_closed s
      → Quiet c s ph
      → Quiet c s' ph
  Quiet-same s s' (draining exit) m n h q = h ∙ q
  Quiet-same s s' (exited exit) m n h q = (h ∙ q.0, m ∙ q.1, omega arith)
  Quiet-same s s' idle m n h q = tt
  Quiet-same s s' (executing id command) m n h q = tt
  Quiet-same s s' (leaving exit) m n h q = tt

  pub Quiet-popped :
      (s s' : c.State) (w : ExecutorWork) (ph : Phase)
      → messages s ≡ w ∷ messages s'
      → is_closed s' ≡ is_closed s
      → Quiet c s ph
      → Quiet c s' ph
  Quiet-popped s s' w (draining exit) m k q = k ∙ q
  Quiet-popped s s' w (exited exit) m k q = absurd (cc (m, q.1))
  Quiet-popped s s' w idle m k q = tt
  Quiet-popped s s' w (executing id command) m k q = tt
  Quiet-popped s s' w (leaving exit) m k q = tt

  -- A permit can be used after the queue is closed, and not after the executor is gone.
  Quiet-sent :
      (s s' : c.State) (ph : Phase)
      → is_closed s' ≡ is_closed s
      → 0 < permits s
      → Quiet c s ph
      → Quiet c s' ph
  Quiet-sent s s' (draining exit) k h q = k ∙ q
  Quiet-sent s s' (exited exit) k h q = absurd (omega (arith, q.2))
  Quiet-sent s s' idle k h q = tt
  Quiet-sent s s' (executing id command) k h q = tt
  Quiet-sent s s' (leaving exit) k h q = tt

  -- The queue gives up at most a permit, and the registry ended operations.
  same-Inv :
      (p : Plane c) (q : Registry) (s : c.State)
      → Inv c p
      → Evicts p.registry (record q { next_sequence = p.registry.next_sequence })
      → messages s ≡ messages p.queue
      → permits s ≤ permits p.queue
      → is_closed s ≡ is_closed p.queue
      → Inv c (record p { registry = q; queue = s })
  same-Inv p q s v ev m n h =
      let kept : (j : OperationId) (op : RegisteredOperation)
          → lookup j p.registry.operations ≡ some op
          → is_terminal op.state ≡ false
          → lookup j q.operations ≡ some op =
        λ j op e live. live_kept p.registry q j op (ev.kept j) e live in
      record {
        coherent = record { order_keys = ev.coherent.order_keys; distinct = ev.coherent.distinct };
        room = omega (arith, ev.same_capacity, v.room);
        bounded = omega (arith, ev.same_capacity, ev.shorter, v.bounded);
        fits = omega (arith, ap length m, n, v.fits);
        entries = rw m (
            All-map (IsQueued p.registry) (IsQueued q) (messages p.queue)
              (IsQueued-kept p.registry q kept) v.entries);
        unique = rw m v.unique;
        current = Current-kept p.registry q kept p.phase v.current;
        counted = omega (arith, ev.same_live, ap length m, v.counted);
        quiet = Quiet-same p.queue s p.phase m n h v.quiet;
      }

  -- A message that is sent for a new entry.
  registered-Inv :
      (p : Plane c) (w : ExecutorWork) (digest : Bytes) (q : Registry) (s : c.State)
      → Inv c p
      → lookup w.id p.registry.operations ≡ none
      → Registers p.registry w.id digest q
      → messages s ≡ messages p.queue ++ w ∷ []
      → length (messages p.queue) + 1 + permits s ≤ c.capacity
      → Quiet c s p.phase
      → Inv c (record p { registry = q; queue = s })
  registered-Inv p w digest q s v fresh g m fit quiet =
      let kept : (j : OperationId) (op : RegisteredOperation)
          → lookup j p.registry.operations ≡ some op
          → is_terminal op.state ≡ false
          → lookup j q.operations ≡ some op =
        λ j op e live.
          live_kept p.registry q j op
            (g.others j (λ same. cc (fresh, e, ap (λ i. lookup i p.registry.operations) same))) e
            live in
      let grown : length (messages s) ≡ length (messages p.queue) + 1 =
        omega (arith, ap length m, length-append (messages p.queue) (w ∷ [])) in
      record {
        coherent = g.coherent;
        room = rw g.same_capacity v.room;
        bounded = omega (
          arith,
          g.bounded (omega (arith, v.counted, v.room, busy-le p.phase, fit)),
          g.same_capacity,
        );
        fits = omega (arith, grown, fit);
        entries = rw m (
            All-append (IsQueued q) (messages p.queue) (w ∷ [])
              (All-map (IsQueued p.registry) (IsQueued q) (messages p.queue)
                (IsQueued-kept p.registry q kept) v.entries)
              ((_, g.entry, refl), tt));
        unique = rw m (
            Unique-append (messages p.queue) w
              (not_queued p.registry w.id (messages p.queue) fresh v.entries) v.unique);
        current = Current-kept p.registry q kept p.phase v.current;
        counted = omega (arith, g.one_more, v.counted, grown);
        quiet = quiet;
      }

  admitted-Inv :
      (p : Plane c) (w : ExecutorWork) (digest : Bytes) (out : Registry × c.State × Admission)
      → Inv c p
      → AdmitCase p.registry w.id digest (c.try_send w) p.queue out
      → Inv c (record p { registry = out.0; queue = out.1 })
  admitted-Inv p w digest out v (attaches op e d o) = rw o v
  admitted-Inv p w digest out v (conflicts op e d o) = rw o v
  admitted-Inv p w digest out v (registers q e t g o) =
      let (m, n, fit, open') = c.try_send_sent w p.queue t in
      rw o (
        registered-Inv p w digest q (c.try_send w p.queue).0 v e g m (omega arith)
          (Quiet-open p.queue (c.try_send w p.queue).0 p.phase open' v.quiet))
  admitted-Inv p w digest out v (rejects x q e t ev o) =
      let (m, n, h) = c.try_send_refused w p.queue t in
      rw o (same-Inv p q (c.try_send w p.queue).0 v ev m (omega arith) h)

  pub admit_command-Inv :
      (p : Plane c) (id : OperationId) (command : CoreCommand)
      → Inv c p
      → Inv c (admit_command c p id command).0
  unfolding admit_command
  admit_command-Inv p id command v =
      let w : ExecutorWork = record { id = id; command = command } in
      admitted-Inv p w (command_digest command) _ v
        (admit_cases p.registry id (command_digest command) (c.try_send w) p.queue v.coherent)

  dropped-Inv :
      (p : Plane c)
      → 0 < permits p.queue
      → Inv c p
      → Inv c (record p { queue = c.drop_permit p.queue })
  dropped-Inv p h v =
      let (m, n, k) = c.drop_permit_lem p.queue h in
      same-Inv p p.registry (c.drop_permit p.queue) v (Evicts-refl p.registry v.coherent) m
        (omega arith) k

  sent-Inv :
      (p : Plane c) (w : ExecutorWork) (digest : Bytes) (out : Registry × c.State × Admission)
      → Inv c p
      → 0 < permits p.queue
      → AdmitCase p.registry w.id digest (permit_sender c w) p.queue out
      → Inv c (settle_permit c out.2 (record p { registry = out.0; queue = out.1 }))
  unfolding permit_sender settle_permit
  sent-Inv p w digest out v h (attaches op e d o) = rw o (dropped-Inv p h v)
  sent-Inv p w digest out v h (conflicts op e d o) = rw o (dropped-Inv p h v)
  sent-Inv p w digest out v h (registers q e t g o) =
      let (m, n, k) = c.send_lem w p.queue h in
      rw o (
        registered-Inv p w digest q (c.send w p.queue) v e g m (omega (arith, v.fits))
          (Quiet-sent p.queue (c.send w p.queue) p.phase k h v.quiet))
  sent-Inv p w digest out v h (rejects x q e t ev o) = absurd (t refl)

  pub send_shutdown-Inv :
      (p : Plane c) (id : OperationId)
      → 0 < permits p.queue
      → Inv c p
      → Inv c (send_shutdown c p id).0
  unfolding send_shutdown
  send_shutdown-Inv p id h v =
      let w : ExecutorWork = record { id = id; command = shutdown } in
      sent-Inv p w (command_digest shutdown) _ v h
        (admit_cases p.registry id (command_digest shutdown) (permit_sender c w) p.queue v.coherent)
