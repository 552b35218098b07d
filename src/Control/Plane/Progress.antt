-- ===== src/Control/Plane/Progress.antt =====
-- What the control plane promises its callers.
use clash_nyanpasu_service.Shared.{
  ℕ, zero, suc, ◌≤◌, ◌≡◌, refl, ap, sym, ◌∙◌, subst, ◌⊎◌, inl, inr, true, some, List, [], ◌∷◌,
  arith, length, not, ◌&&◌, Bool-cases,
}
use clash_nyanpasu_service.Shared.Assoc.{lookup}
use clash_nyanpasu_service.Control.OperationId.{OperationId, id_key}
use clash_nyanpasu_service.Control.Command.{CoreCommand, shutdown, is_terminal}
use clash_nyanpasu_service.Control.Registry.{
  Admission, registered, RegisteredOperation, ExecutorWork,
}
use clash_nyanpasu_service.Control.Registry.Live.{live_count, none_live}
use clash_nyanpasu_service.Control.Channel.{Channel}
use clash_nyanpasu_service.Control.Plane.{
  Plane, Phase, Outcome, ExecutorExit, completes, fails, panics, idle, executing, leaving, draining,
  exited, spawn, Step, admits, latches, reserves, sends, receives, ends, finishes, closes, drains,
  drained, admit_command, latch, send_shutdown, receive, finish, drain_one, settle_permit, Reach,
  here, next, after_operation, is_shutdown,
}
use clash_nyanpasu_service.Control.Plane.Leaving.{OwnRun, OwnRun-Reach, OwnRun-one, OwnRun-trans}
use clash_nyanpasu_service.Control.Plane.Invariant.{Inv, Quiet, busy}
use clash_nyanpasu_service.Control.Plane.Admitting.{spawn-Inv}
use clash_nyanpasu_service.Control.Plane.Steps.{Step-Inv, Reach-Inv}

is_shutdown-eq : (command : CoreCommand) → is_shutdown command ≡ true → command ≡ shutdown
unfolding is_shutdown
is_shutdown-eq command h = ground arith

module _ (c : Channel) where
  -- Whatever threads submit, shut down and reserve, and whatever the operations end with, the
  -- control plane keeps its invariant: the registry's map and order agree, it stays within its
  -- capacity, every waiting message has a queued entry of its own, the operation that runs has a
  -- running one, and no other entry is live.
  pub spawn-Reach-Inv : (n : ℕ) (p : Plane c) → Reach c (spawn c n) p → Inv c p
  spawn-Reach-Inv n p r = Reach-Inv c r (spawn-Inv c n)

  -- When the executor task has ended, cleanly or by a panic, every operation that the registry still
  -- holds has a terminal state.
  pub exited-all_ended :
      (n : ℕ) (p : Plane c) (exit : ExecutorExit) (id : OperationId) (op : RegisteredOperation)
      → Reach c (spawn c n) p
      → p.phase ≡ exited exit
      → lookup id p.registry.operations ≡ some op
      → is_terminal op.state ≡ true
  exited-all_ended n p exit id op r at e =
      let v = spawn-Reach-Inv n p r in
      let quiet = subst (Quiet c p.queue) at v.quiet in
      let resting : busy p.phase ≡ 0 = ap busy at in
      none_live id p.registry.operations op (omega (arith, v.counted, resting, ap length quiet.1)) e

  drain_loop :
      (k : ℕ) (p : Plane c) (exit : ExecutorExit) (ws : List ExecutorWork)
      → length ws ≤ k
      → c.messages p.queue ≡ ws
      → Inv c p
      → p.phase ≡ draining exit
      → c.permits p.queue ≡ 0
      → (q : Plane c) × OwnRun c p q × (q.phase ≡ exited exit)
  unfolding drain_one
  drain_loop k p exit [] h m v at none_left =
      let closed = subst (Quiet c p.queue) at v.quiet in
      let got = c.recv_done p.queue m none_left closed in
      (record p { phase = exited exit }, OwnRun-one c (drained exit at got refl) tt, refl)
  drain_loop zero p exit (w ∷ ws) h m v at none_left = absurd (omega arith)
  drain_loop (suc k) p exit (w ∷ ws) h m v at none_left =
      let (s, got) = c.recv_ready p.queue w ws m in
      let (rest, n, same) = c.recv_received p.queue w s got in
      let q = drain_one c (record p { queue = s }) exit w in
      let step : Step c p q = drains exit w s at got refl in
      let (e, reach, done) =
        drain_loop k q exit ws (omega arith) (cc (rest, m)) (Step-Inv c p q step v) at
          (n ∙ none_left) in
      (e, OwnRun-trans c (OwnRun-one c step tt) reach, done)

  -- Where the executor has left its loop, cleanly or by a panic, and no permit of the queue is handed
  -- out, a run of its own steps alone (the close of the queue, the drain of one message, the end of
  -- the drain), with no step of another thread, leads to its end, whatever still waits in the queue;
  -- and then no operation in the registry is live.
  pub leaving-drains :
      (n : ℕ) (p : Plane c) (exit : ExecutorExit)
      → Reach c (spawn c n) p
      → p.phase ≡ leaving exit
      → c.permits p.queue ≡ 0
      → (q : Plane c) × OwnRun c p q
        × (q.phase ≡ exited exit)
        × (live_count q.registry.operations ≡ 0)
  leaving-drains n p exit r at none_left =
      let q : Plane c = record p { queue = c.close p.queue; phase = draining exit } in
      let step : Step c p q = closes exit at refl in
      let (m, same, closed) = c.close_lem p.queue in
      let v = Step-Inv c p q step (spawn-Reach-Inv n p r) in
      let (e, reach, done) =
        drain_loop (length (c.messages q.queue)) q exit (c.messages q.queue) (omega arith) refl v
          refl (same ∙ none_left) in
      let w = Reach-Inv c (OwnRun-Reach c reach) v in
      let quiet = subst (Quiet c e.queue) done w.quiet in
      let resting : busy e.phase ≡ 0 = ap busy done in
      (
        e,
        OwnRun-trans c (OwnRun-one c step tt) reach,
        done,
        omega (arith, w.counted, resting, ap length quiet.1),
      )

  settle_permit-phase :
      (a : Admission) (p : Plane c)
      → ((settle_permit c a p).phase ≡ p.phase) × ((settle_permit c a p).closing ≡ p.closing)
  unfolding settle_permit
  settle_permit-phase (registered n) p = (refl, refl)
  settle_permit-phase _ p = (refl, refl)

  send_shutdown-phase :
      (p : Plane c) (id : OperationId)
      → ((send_shutdown c p id).0.phase ≡ p.phase) × ((send_shutdown c p id).0.closing ≡ p.closing)
  unfolding send_shutdown
  send_shutdown-phase p id = settle_permit-phase _ _

  closing-Step : (p q : Plane c) → Step c p q → p.closing ≡ true → q.closing ≡ true
  unfolding admit_command latch receive finish drain_one
  closing-Step p q (sends id h e) l = rw e ((send_shutdown-phase p id).1 ∙ l)
  closing-Step p q (finishes id command (completes o) at e) l = rw e l
  closing-Step p q (finishes id command (fails o) at e) l = rw e l
  closing-Step p q (finishes id command (panics o) at e) l = rw e refl
  closing-Step p q (receives w s at got e) l = ground arith
  closing-Step p q (latches e) l = rw e refl
  closing-Step p q (admits id command e) l = rw e l
  closing-Step p q (reserves s got e) l = rw e l
  closing-Step p q (ends at got e) l = rw e l
  closing-Step p q (closes exit at e) l = rw e l
  closing-Step p q (drains exit w s at got e) l = rw e l
  closing-Step p q (drained exit at got e) l = rw e l

  closing-stays : {p q : Plane c} → Reach c p q → p.closing ≡ true → q.closing ≡ true
  closing-stays here l = l
  closing-stays (next r s) l = closing-Step _ _ s (closing-stays r l)

  abbrev Started : Plane c → Phase → Type 0
  Started p (executing id command) = (p.phase ≡ executing id command) ⊎ (command ≡ shutdown)
  Started p _ = Unit

  Started-at : (p : Plane c) (ph : Phase) → ph ≡ p.phase → Started p ph
  Started-at p (executing id command) e = inl (sym e)
  Started-at p idle e = tt
  Started-at p (leaving exit) e = tt
  Started-at p (draining exit) e = tt
  Started-at p (exited exit) e = tt

  Started-same : (p q : Plane c) → q.phase ≡ p.phase → Started p q.phase
  Started-same p q e = Started-at p q.phase e

  received-Started :
      (p : Plane c) (w : ExecutorWork) (s : c.State)
      → p.closing ≡ true
      → Started p (receive c (record p { queue = s }) w).phase
  unfolding receive
  received-Started p w s l = elim (Bool-cases (not (is_shutdown w.command) && p.closing)) [
    | inl e ↦ rw e (Started-at p p.phase refl)
    | inr e ↦ rw e (inr (is_shutdown-eq w.command (ground arith)))
  ]

  finished-Started :
      (p : Plane c) (id : OperationId) (command : CoreCommand) (o : Outcome)
      → Started p (finish c p id command o).phase
  unfolding finish after_operation
  finished-Started p id command (panics o) = tt
  finished-Started p id command (completes o) = elim (Bool-cases (is_shutdown command)) [
    | inl e ↦ rw e tt
    | inr e ↦ rw e tt
  ]
  finished-Started p id command (fails o) = elim (Bool-cases (is_shutdown command)) [
    | inl e ↦ rw e tt
    | inr e ↦ rw e tt
  ]

  start-Step : (p q : Plane c) → Step c p q → p.closing ≡ true → Started p q.phase
  unfolding admit_command latch drain_one
  start-Step p q (admits id command e) l = Started-same p q (ap (λ x. x.phase) e)
  start-Step p q (latches e) l = Started-same p q (ap (λ x. x.phase) e)
  start-Step p q (reserves s got e) l = Started-same p q (ap (λ x. x.phase) e)
  start-Step p q (sends id h e) l =
      Started-same p q (ap (λ x. x.phase) e ∙ (send_shutdown-phase p id).0)
  start-Step p q (receives w s at got e) l =
      subst (Started p) (sym (ap (λ x. x.phase) e)) (received-Started p w s l)
  start-Step p q (ends at got e) l = subst (Started p) (sym (ap (λ x. x.phase) e)) tt
  start-Step p q (finishes id command o at e) l =
      subst (Started p) (sym (ap (λ x. x.phase) e)) (finished-Started p id command o)
  start-Step p q (closes exit at e) l = subst (Started p) (sym (ap (λ x. x.phase) e)) tt
  start-Step p q (drains exit w s at got e) l = Started-same p q (ap (λ x. x.phase) e)
  start-Step p q (drained exit at got e) l = subst (Started p) (sym (ap (λ x. x.phase) e)) tt

  -- After the latch is set, the executor starts no operation but a shutdown: what runs later is what
  -- ran at the latch, or a shutdown.
  pub latched-runs_shutdown :
      (p q : Plane c) (id : OperationId) (command : CoreCommand)
      → p.closing ≡ true
      → Reach c p q
      → q.phase ≡ executing id command
      → (p.phase ≡ executing id command) ⊎ (command ≡ shutdown)
  latched-runs_shutdown p q id command l here at = inl at
  latched-runs_shutdown p q id command l (next {q = m} r s) at =
      elim (subst (Started m) at (start-Step m q s (closing-stays r l))) [
        | inl before ↦ latched-runs_shutdown p m id command l r before
        | inr stops ↦ inr stops
      ]
