-- ===== src/Control/Plane/Invariant.antt =====
-- What holds of the control plane between two steps.
use clash_nyanpasu_service.Shared.{
  ℕ, ◌+◌, ◌≤◌, ◌<◌, ◌≡◌, ◌≢◌, ap, sym, true, false, none, some, List, [], ◌∷◌, ◌++◌, length, All,
  All-append, All-map,
}
use clash_nyanpasu_service.Shared.Assoc.{lookup}
use clash_nyanpasu_service.Control.OperationId.{OperationId, id_key}
use clash_nyanpasu_service.Control.Command.{queued, running, is_terminal}
use clash_nyanpasu_service.Control.Registry.{RegisteredOperation, Registry, ExecutorWork}
use clash_nyanpasu_service.Control.Registry.Live.{live_count, Coherent}
use clash_nyanpasu_service.Control.Channel.{Channel}
use clash_nyanpasu_service.Control.Plane.{Plane, Phase, executing, draining, exited}

-- The operation of a waiting message is registered and queued.
abbrev pub IsQueued : Registry → ExecutorWork → Type 0
IsQueued r w =
    (op : RegisteredOperation) × (lookup w.id r.operations ≡ some op) × (op.state ≡ queued)

-- No two messages have one id.
abbrev pub Unique : List ExecutorWork → Type 0
Unique [] = Unit
Unique (w ∷ ws) = All (λ v. v.id ≢ w.id) ws × Unique ws

-- The operation that the executor awaits is registered and running.
abbrev pub Current : Registry → Phase → Type 0
Current r (executing id command) =
    (op : RegisteredOperation) × (lookup id r.operations ≡ some op) × (op.state ≡ running)
Current r _ = Unit

abbrev pub busy : Phase → ℕ
busy (executing id command) = 1
busy _ = 0

pub not_queued :
    (r : Registry) (id : OperationId) (ws : List ExecutorWork)
    → lookup id r.operations ≡ none
    → All (IsQueued r) ws
    → All (λ v. v.id ≢ id) ws
not_queued r id ws fresh a =
    All-map (IsQueued r) (λ v. v.id ≢ id) ws
      (λ v q e. cc (fresh, q.1, ap (λ i. lookup i r.operations) e)) a

pub Unique-append :
    (ws : List ExecutorWork) (w : ExecutorWork)
    → All (λ v. v.id ≢ w.id) ws
    → Unique ws
    → Unique (ws ++ w ∷ [])
Unique-append [] w a u = (tt, tt)
Unique-append (v ∷ ws) w a u = (
  All-append (λ x. x.id ≢ v.id) ws (w ∷ []) u.0 ((λ e. a.0 (sym e)), tt),
  Unique-append ws w a.1 u.1,
)

module _ (c : Channel) where
  open c use {messages, permits, is_closed}

  -- A queue that the executor has closed stays closed, and is empty for good when the task is gone.
  abbrev pub Quiet : c.State → Phase → Type 0
  Quiet s (draining exit) = is_closed s ≡ true
  Quiet s (exited exit) = (is_closed s ≡ true) × (messages s ≡ []) × (permits s ≡ 0)
  Quiet s _ = Unit

  pub record Inv (p : Plane c) : Type 0 where
    pub coherent : Coherent p.registry
    pub room : c.capacity < p.registry.capacity
    pub bounded : length p.registry.operations ≤ p.registry.capacity
    pub fits : length (messages p.queue) + permits p.queue ≤ c.capacity
    pub entries : All (IsQueued p.registry) (messages p.queue)
    pub unique : Unique (messages p.queue)
    pub current : Current p.registry p.phase
    pub counted : live_count p.registry.operations ≡ length (messages p.queue) + busy p.phase
    pub quiet : Quiet p.queue p.phase

-- The entries that admission keeps.
module _ (r q : Registry)
    (kept : (j : OperationId) (op : RegisteredOperation)
      → lookup j r.operations ≡ some op
      → is_terminal op.state ≡ false
      → lookup j q.operations ≡ some op) where
  pub IsQueued-kept : (w : ExecutorWork) → IsQueued r w → IsQueued q w
  unfolding is_terminal
  IsQueued-kept w (op, e, s) = (op, kept w.id op e (rw s), s)

  pub Current-kept : (p : Phase) → Current r p → Current q p
  unfolding is_terminal
  Current-kept (executing id command) (op, e, s) = (op, kept id op e (rw s), s)
  Current-kept _ h = tt
