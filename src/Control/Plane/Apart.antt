-- ===== src/Control/Plane/Apart.antt =====
-- Waiting, running and other operations are different ones.
use clash_nyanpasu_service.Shared.{
  ◌≤◌, ◌≡◌, ◌≢◌, ◌∙◌, subst, some, List, [], ◌∷◌, arith, All, All-map,
}
use clash_nyanpasu_service.Shared.Assoc.{lookup}
use clash_nyanpasu_service.Control.OperationId.{OperationId, id_key}
use clash_nyanpasu_service.Control.Command.{queued, running, is_terminal}
use clash_nyanpasu_service.Control.Registry.{RegisteredOperation, Registry, ExecutorWork}
use clash_nyanpasu_service.Control.Registry.Live.{weight}
use clash_nyanpasu_service.Control.Plane.{Phase, executing}
use clash_nyanpasu_service.Control.Plane.Invariant.{IsQueued, Unique, busy}

pub weight-queued : (op : RegisteredOperation) → op.state ≡ queued → weight op ≡ 1
unfolding is_terminal
weight-queued op e = ground arith

pub weight-running : (op : RegisteredOperation) → op.state ≡ running → weight op ≡ 1
unfolding is_terminal
weight-running op e = ground arith

pub popped :
    (r : Registry) (w : ExecutorWork) (ms ws : List ExecutorWork)
    → ms ≡ w ∷ ws
    → All (IsQueued r) ms
    → Unique ms
    → (IsQueued r w × All (IsQueued r) ws) × (All (λ v. v.id ≢ w.id) ws × Unique ws)
popped r w ms ws m a u = (subst (All (IsQueued r)) m a, subst Unique m u)

queued-ne-running :
    (r : Registry) (id : OperationId) (w : ExecutorWork) (op : RegisteredOperation)
    → lookup id r.operations ≡ some op
    → op.state ≡ running
    → IsQueued r w
    → w.id ≢ id
queued-ne-running r id w op e st (op', e', st') same =
    let found : lookup id r.operations ≡ some op' =
      subst (λ i. lookup i r.operations ≡ some op') same e' in
    cc (e, found, st, st')

pub not_running :
    (r : Registry) (id : OperationId) (op : RegisteredOperation) (ws : List ExecutorWork)
    → lookup id r.operations ≡ some op
    → op.state ≡ running
    → All (IsQueued r) ws
    → All (λ v. v.id ≢ id) ws
not_running r id op ws e st a =
    All-map (IsQueued r) (λ v. v.id ≢ id) ws (λ v q same. queued-ne-running r id v op e st q same) a

-- Messages of other ids keep their entries when one id's entry changes.
pub kept_apart :
    (r q : Registry) (id : OperationId) (ws : List ExecutorWork)
    → ((j : OperationId) → j ≢ id → lookup j q.operations ≡ lookup j r.operations)
    → All (λ v. v.id ≢ id) ws
    → All (IsQueued r) ws
    → All (IsQueued q) ws
kept_apart r q id [] same a h = tt
kept_apart r q id (w ∷ ws) same a ((op, e, s), h) =
    ((op, same w.id a.0 ∙ e, s), kept_apart r q id ws same a.1 h)

pub busy-le : (p : Phase) → busy p ≤ 1
busy-le (executing id command) = omega arith
busy-le _ = omega arith
