-- ===== src/Control/Registry/Settle.antt =====
-- The end of an operation: what `set` leaves in the registry.
use clash_nyanpasu_service.Shared.{◌+◌, ◌≡◌, ◌≢◌, refl, ◌∙◌, true, some, arith, length}
use clash_nyanpasu_service.Shared.Assoc.{lookup, lookup-insert}
use clash_nyanpasu_service.Control.OperationId.{OperationId, id_eq_iff, id_key}
use clash_nyanpasu_service.Control.Command.{OperationState, is_terminal}
use clash_nyanpasu_service.Control.Registry.{
  RegisteredOperation, Registry, is_terminal_in, set_state,
}
use clash_nyanpasu_service.Control.Registry.Live.{
  weight, live_count, Coherent, Distinct-insert, keys-insert_old, live_count-insert_old,
  length-insert_old,
}

-- What `set` leaves of a registered operation's registry.
pub record Sets (r : Registry) (id : OperationId) (state : OperationState) (q : Registry)
    : Type 0 where
  pub coherent : Coherent q
  pub same_capacity : q.capacity ≡ r.capacity
  pub same_sequence : q.next_sequence ≡ r.next_sequence
  pub same_length : length q.operations ≡ length r.operations
  pub others : (j : OperationId) → j ≢ id → lookup j q.operations ≡ lookup j r.operations

pub set_state-Sets :
    (r : Registry) (id : OperationId) (state : OperationState) (op : RegisteredOperation)
    → Coherent r
    → lookup id r.operations ≡ some op
    → let q = set_state r id state in
      Sets r id state q
      × (lookup id q.operations ≡ some (record op { state = state }))
      × (weight op + live_count q.operations
          ≡ weight (record op { state = state }) + live_count r.operations)
unfolding set_state
set_state-Sets r id state op c e =
    let new : RegisteredOperation = record op { state = state } in
    rw (e, set_state)
      (
        record {
          coherent = record {
            order_keys = keys-insert_old id new r.operations {old = op} e ∙ c.order_keys;
            distinct = Distinct-insert id new r.operations c.distinct;
          };
          same_capacity = refl;
          same_sequence = refl;
          same_length = length-insert_old id new r.operations {old = op} e;
          others = λ j ne. ground (arith, lookup-insert id j new r.operations, id_eq_iff id j);
        },
        ground (arith, lookup-insert id id new r.operations, id_eq_iff id id),
        live_count-insert_old id new r.operations {old = op} e,
      )

pub terminal_of_in :
    (r : Registry) (id : OperationId) (op : RegisteredOperation)
    → is_terminal_in r.operations id ≡ true
    → lookup id r.operations ≡ some op
    → is_terminal op.state ≡ true
unfolding is_terminal_in
terminal_of_in r id op h e = ground arith
