-- ===== src/Control/Registry.antt =====
-- `Registry` of crates/nyanpasu-core-manager/src/control/executor.rs: the bounded table of recent
-- operations. The hash map is an association list in insertion order, and the `watch` channel of an
-- operation is the state that it holds. The lock makes each method one step.
pub mod Live
pub mod Evict
pub mod Admit
pub mod Settle
mod Tests
use clash_nyanpasu_service.Shared.{
  ℕ, zero, suc, ◌+◌, ◌%◌, ◌^◌, Bytes, codes, bytes_eq, Bool, true, false, Option, none, some, List,
  [], ◌∷◌, ◌++◌, map, if◌then◌else◌, leb, length, is_some_and,
}
use clash_nyanpasu_service.Shared.Assoc.{lookup, insert, remove}
use clash_nyanpasu_service.Failure.{CoreErrorKind}
use clash_nyanpasu_service.Control.OperationId.{OperationId, display, id_eq, id_key}
use clash_nyanpasu_service.Control.Command.{
  CoreError, OperationState, CoreCommand, queued, is_terminal, new_error,
}

pub record ExecutorWork : Type 0 where
  pub id : OperationId
  pub command : CoreCommand

pub record RegisteredOperation : Type 0 where
  pub digest : Bytes
  pub sequence : ℕ
  pub state : OperationState

abbrev pub Operations : Type 0
Operations = List (OperationId × RegisteredOperation)

pub record Registry : Type 0 where
  pub operations : Operations
  pub order : List OperationId
  pub next_sequence : ℕ
  pub capacity : ℕ

unfoldable pub new_registry : ℕ → Registry
new_registry capacity = record {
  operations = [];
  order = [];
  next_sequence = 0;
  capacity = capacity;
}

-- Whether an id names an operation that has ended.
pub is_terminal_in : Operations → OperationId → Bool
unfolding is_terminal
is_terminal_in ops id = is_some_and (lookup id ops) (λ op. is_terminal op.state)

-- `order.iter().position(..)` and `order.remove(position)`: the first id whose operation has ended,
-- and the order without it.
pub take_terminal : Operations → List OperationId → Option (OperationId × List OperationId)
take_terminal ops [] = none
take_terminal ops (id ∷ ids) =
    let rest = take_terminal ops ids in
    if is_terminal_in ops id
    then some (id, ids)
    else elim rest [ none ↦ none | some (found, others) ↦ some (found, id ∷ others) ]

-- The body of the eviction loop, after its test; `none` is the `break`.
pub evict_one : Registry → Option Registry
unfolding remove
evict_one r = elim (take_terminal r.operations r.order) [
  | none ↦ none
  | some (id, order) ↦ some (record r { operations = remove id r.operations; order = order })
]

-- `while inner.operations.len() >= self.capacity`; each round takes an id out of the order.
unfoldable pub evict_loop : ℕ → Registry → Registry
evict_loop zero r = r
evict_loop (suc fuel) r =
    if leb r.capacity (length r.operations)
    then (elim (evict_one r) [ none ↦ r | some r' ↦ evict_loop fuel r' ])
    else r

unfoldable pub evict : Registry → Registry
evict r = evict_loop (suc (length r.order)) r

pub data SendOutcome : Type 0 where
  sent full closed : SendOutcome

pub data Admission : Type 0 where
  registered existing : (sequence : ℕ) → Admission
  refused : CoreError → Admission

pub conflict_error : OperationId → CoreError
conflict_error id =
    new_error CoreErrorKind.operation_conflict
      (codes "operation "
        ++ (display id ++ codes " was already submitted with a different payload"))
      false id

pub full_error : OperationId → CoreError
full_error id = new_error CoreErrorKind.queue_full (codes "the operation queue is full") true id

pub gone_error : OperationId → CoreError
gone_error id = new_error CoreErrorKind.internal (codes "the control executor is gone") false id

pub pop_back {ℓ} : {A : Type ℓ} → List A → List A
pop_back [] = []
pop_back (x ∷ []) = []
pop_back (x ∷ y ∷ ys) = x ∷ pop_back (y ∷ ys)

-- The entry of a new operation, at the end of the order.
unfoldable pub register : Registry → OperationId → Bytes → Registry
register r id digest = record r {
  operations =
      insert id (record { digest = digest; sequence = r.next_sequence; state = queued })
        r.operations;
  order = r.order ++ id ∷ [];
  next_sequence = (r.next_sequence + 1) % 2 ^ 64;
}

-- The entry taken back when the enqueue is refused.
pub unregister : Registry → OperationId → Registry
unfolding pop_back remove
unregister r id = record r { operations = remove id r.operations; order = pop_back r.order }

module _ {S : Type 0} where
  unfoldable pub finish_admit :
      Registry → OperationId → ℕ → S × SendOutcome → Registry × S × Admission
  finish_admit r id sequence (s, sent) = (r, s, registered sequence)
  finish_admit r id sequence (s, full) = (unregister r id, s, refused (full_error id))
  finish_admit r id sequence (s, closed) = (unregister r id, s, refused (gone_error id))

  unfoldable pub admit_new :
      Registry → OperationId → Bytes → (S → S × SendOutcome) → S → Registry × S × Admission
  unfolding finish_admit
  admit_new r id digest enqueue s =
      finish_admit (register r id digest) id r.next_sequence (enqueue s)

  -- `Registry::admit`; `enqueue` runs on the state of the channel that it captures.
  unfoldable pub admit :
      Registry → OperationId → Bytes → (S → S × SendOutcome) → S → Registry × S × Admission
  unfolding admit_new
  admit r id digest enqueue s = elim (lookup id r.operations) [
    | some op ↦
        if bytes_eq op.digest digest
        then (r, s, existing op.sequence)
        else (r, s, refused (conflict_error id))
    | none ↦ admit_new (evict r) id digest enqueue s
  ]

-- `Registry::set`; an id that is not registered is passed over.
unfoldable pub set_state : Registry → OperationId → OperationState → Registry
set_state r id state = elim (lookup id r.operations) [
  | none ↦ r
  | some op ↦ record r { operations = insert id (record op { state = state }) r.operations }
]

abbrev pub state_of : RegisteredOperation → OperationState
state_of op = op.state

-- `Registry::get`.
pub get_state : Registry → OperationId → Option OperationState
get_state r id = elim (lookup id r.operations) [ none ↦ none | some op ↦ some op.state ]

abbrev pub keys : Operations → List OperationId
keys = map λ e. e.0
