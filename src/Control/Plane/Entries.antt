-- ===== src/Control/Plane/Entries.antt =====
-- What a step does to the entry of one operation.
use clash_nyanpasu_service.Shared.{
  ℕ, ◌≡◌, refl, ap, sym, ◌∙◌, subst, ◌⊎◌, inl, inr, true, false, none, some, Bool-cases, not, ◌&&◌,
}
use clash_nyanpasu_service.Shared.Assoc.{lookup}
use clash_nyanpasu_service.Control.OperationId.{OperationId, id_key, id_eq, id_eq_iff}
use clash_nyanpasu_service.Control.Command.{
  OperationState, CoreCommand, running, succeeded, failed, shutdown, is_terminal, command_digest,
}
use clash_nyanpasu_service.Control.Registry.{
  Admission, registered, RegisteredOperation, Registry, ExecutorWork, SendOutcome, is_terminal_in,
  set_state,
}
use clash_nyanpasu_service.Control.Registry.Live.{Coherent}
use clash_nyanpasu_service.Control.Registry.Admit.{
  AdmitCase, attaches, conflicts, registers, rejects, admit_cases,
}
use clash_nyanpasu_service.Control.Registry.Settle.{set_state-Sets, terminal_of_in}
use clash_nyanpasu_service.Control.Channel.{Channel, received}
use clash_nyanpasu_service.Control.Plane.{
  Plane, completes, fails, panics, executing, spawn, Step, admits, latches, reserves, sends,
  receives, ends, finishes, closes, drains, drained, admit_command, latch, send_shutdown, receive,
  finish, drain_one, drained_state, settle_permit, Reach, is_shutdown, shutting_down_error,
  panic_error,
}
use clash_nyanpasu_service.Control.Plane.Invariant.{Inv, Current}
use clash_nyanpasu_service.Control.Plane.Apart.{popped}
use clash_nyanpasu_service.Control.Plane.Admitting.{spawn-Inv}
use clash_nyanpasu_service.Control.Plane.Steps.{Reach-Inv}

-- An entry stays under its digest and its sequence number, and with its state if that is terminal; or
-- it had ended and was evicted.
abbrev pub Persists : Registry → OperationId → RegisteredOperation → Type 0
Persists q id op =
    ((op' : RegisteredOperation) × (lookup id q.operations ≡ some op')
      × (op'.digest ≡ op.digest)
      × (op'.sequence ≡ op.sequence)
      × ((is_terminal op.state ≡ false) ⊎ (op' ≡ op)))
    ⊎ ((is_terminal op.state ≡ true) × (lookup id q.operations ≡ none))

Persists-same :
    (q : Registry) (id : OperationId) (op : RegisteredOperation)
    → lookup id q.operations ≡ some op
    → Persists q id op
Persists-same q id op e = inl (op, e, refl, refl, inr refl)

Persists-kept :
    (r q : Registry) (id : OperationId) (op : RegisteredOperation)
    → (lookup id q.operations ≡ lookup id r.operations)
      ⊎ ((is_terminal_in r.operations id ≡ true) × (lookup id q.operations ≡ none))
    → lookup id r.operations ≡ some op
    → Persists q id op
Persists-kept r q id op (inl same) e = Persists-same q id op (same ∙ e)
Persists-kept r q id op (inr (ended, gone)) e = inr (terminal_of_in r id op ended e, gone)

Persists-admit :
    {S : Type 0} (r : Registry) (id j : OperationId) (op : RegisteredOperation) {digest : _}
    (enqueue : S → S × SendOutcome) (s : S) (out : Registry × S × Admission)
    → AdmitCase r j digest enqueue s out
    → lookup id r.operations ≡ some op
    → Persists out.0 id op
Persists-admit r id j op enqueue s out (attaches x l d o) e = rw o (Persists-same r id op e)
Persists-admit r id j op enqueue s out (conflicts x l d o) e = rw o (Persists-same r id op e)
Persists-admit r id j op enqueue s out (registers q l t g o) e = rw o (
    Persists-kept r q id op (g.others id (λ same. cc (l, e, ap (λ i. lookup i r.operations) same)))
      e)
Persists-admit r id j op enqueue s out (rejects x q l t ev o) e =
    rw o (Persists-kept r q id op (ev.kept id) e)

Persists-set :
    (r : Registry) (id j : OperationId) (state : OperationState) (op found : RegisteredOperation)
    → Coherent r
    → lookup j r.operations ≡ some found
    → is_terminal found.state ≡ false
    → lookup id r.operations ≡ some op
    → Persists (set_state r j state) id op
Persists-set r id j state op found c f live e = elim (Bool-cases (id_eq id j)) [
  | inl t ↦
      let same : id ≡ j = (id_eq_iff id j).0 t in
      let (sets, entry, count) = set_state-Sets r j state found c f in
      let own : found ≡ op = cc (f, e, ap (λ i. lookup i r.operations) same) in
      inl (
        record found { state = state },
        subst
            (λ i. lookup i (set_state r j state).operations ≡ some (record found { state = state }))
            (sym same) entry,
        ap (λ x. x.digest) own,
        ap (λ x. x.sequence) own,
        inl (subst (λ x. is_terminal x.state ≡ false) own live),
      )
  | inr t ↦
      let (sets, entry, count) = set_state-Sets r j state found c f in
      Persists-same (set_state r j state) id op
        (sets.others id (λ same. cc (t, (id_eq_iff id j).1 same)) ∙ e)
]

module _ (c : Channel) where
  settle_permit-registry :
      (a : Admission) (p : Plane c) → (settle_permit c a p).registry ≡ p.registry
  unfolding settle_permit
  settle_permit-registry (registered n) p = refl
  settle_permit-registry _ p = refl

  Persists-received :
      (p : Plane c) (w : ExecutorWork) (s : c.State) (id : OperationId) (op : RegisteredOperation)
      (state : OperationState)
      → Inv c p
      → c.recv p.queue ≡ received w s
      → lookup id p.registry.operations ≡ some op
      → Persists (set_state p.registry w.id state) id op
  unfolding is_terminal
  Persists-received p w s id op state v got e =
      let (m, n, h) = c.recv_received p.queue w s got in
      let (found, f, st) =
        (popped p.registry w (c.messages p.queue) (c.messages s) m v.entries v.unique).0.0 in
      Persists-set p.registry id w.id state op found v.coherent f (rw st refl) e

  Persists-ran :
      (p : Plane c) (j id : OperationId) (command : CoreCommand) (op : RegisteredOperation)
      (state : OperationState)
      → Inv c p
      → p.phase ≡ executing j command
      → lookup id p.registry.operations ≡ some op
      → Persists (set_state p.registry j state) id op
  unfolding is_terminal
  Persists-ran p j id command op state v at e =
      let (found, f, st) = subst (Current p.registry) at v.current in
      Persists-set p.registry id j state op found v.coherent f (rw st refl) e

  Step-Persists :
      (p q : Plane c) (id : OperationId) (op : RegisteredOperation)
      → Inv c p
      → Step c p q
      → lookup id p.registry.operations ≡ some op
      → Persists q.registry id op
  unfolding admit_command latch send_shutdown receive finish drain_one
  Step-Persists p q id op v (admits j command x) e = rw x (
      Persists-admit p.registry id j op _ p.queue _
        (admit_cases p.registry j (command_digest command) _ p.queue v.coherent) e)
  Step-Persists p q id op v (latches x) e = rw x (Persists-same p.registry id op e)
  Step-Persists p q id op v (reserves s got x) e = rw x (Persists-same p.registry id op e)
  Step-Persists p q id op v (sends j h x) e = rw x (
      subst (λ r. Persists r id op) (sym (settle_permit-registry _ _))
        (Persists-admit p.registry id j op _ p.queue _
          (admit_cases p.registry j (command_digest shutdown) _ p.queue v.coherent) e))
  Step-Persists p q id op v (receives w s at got x) e =
      elim (Bool-cases (not (is_shutdown w.command) && p.closing)) [
        | inl t ↦
            rw (x, t) (Persists-received p w s id op (failed (shutting_down_error w.id)) v got e)
        | inr t ↦ rw (x, t) (Persists-received p w s id op running v got e)
      ]
  Step-Persists p q id op v (ends at got x) e = rw x (Persists-same p.registry id op e)
  Step-Persists p q id op v (finishes j command (completes o) at x) e =
      rw x (Persists-ran p j id command op (succeeded o) v at e)
  Step-Persists p q id op v (finishes j command (fails o) at x) e =
      rw x (Persists-ran p j id command op (failed o) v at e)
  Step-Persists p q id op v (finishes j command (panics o) at x) e =
      rw x (Persists-ran p j id command op (failed (panic_error o j)) v at e)
  Step-Persists p q id op v (closes exit at x) e = rw x (Persists-same p.registry id op e)
  Step-Persists p q id op v (drains exit w s at got x) e =
      rw x (Persists-received p w s id op (drained_state exit w) v got e)
  Step-Persists p q id op v (drained exit at got x) e = rw x (Persists-same p.registry id op e)

  -- In every reachable control plane, a step of any thread leaves a registered operation under its
  -- digest and its sequence number, and leaves its state too if that is terminal; the entry goes
  -- only if the operation had ended. So no operation is lost while it waits or runs, and its result
  -- does not change.
  pub entry-Persists :
      (n : ℕ) (p q : Plane c) (id : OperationId) (op : RegisteredOperation)
      → Reach c (spawn c n) p
      → Step c p q
      → lookup id p.registry.operations ≡ some op
      → Persists q.registry id op
  entry-Persists n p q id op r s e = Step-Persists p q id op (Reach-Inv c r (spawn-Inv c n)) s e
