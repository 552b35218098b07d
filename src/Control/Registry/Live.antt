-- ===== src/Control/Registry/Live.antt =====
-- Counting the operations that have not ended.
use clash_nyanpasu_service.Shared.{
  ℕ, ◌+◌, ◌≡◌, refl, true, none, some, [], ◌∷◌, ◌++◌, arith, if◌then◌else◌, length,
}
use clash_nyanpasu_service.Shared.Assoc.{
  lookup, insert, remove, Distinct, lookup-insert, lookup-remove,
}
use clash_nyanpasu_service.Control.OperationId.{OperationId, id_eq_iff, id_key}
use clash_nyanpasu_service.Control.Command.{is_terminal}
use clash_nyanpasu_service.Control.Registry.{RegisteredOperation, Operations, Registry, keys}

abbrev pub weight : RegisteredOperation → ℕ
weight op = if is_terminal op.state then 0 else 1

-- How many operations have not ended.
unfoldable pub live_count : Operations → ℕ
live_count [] = 0
live_count ((id, op) ∷ ops) = weight op + live_count ops

-- The map and the order name the same operations, each once.
pub record Coherent (r : Registry) : Type 0 where
  pub order_keys : keys r.operations ≡ r.order
  pub distinct : Distinct r.operations

pub live_count-remove :
    (id : OperationId) (ops : Operations) {op : RegisteredOperation}
    → lookup id ops ≡ some op
    → weight op + live_count (remove id ops) ≡ live_count ops
unfolding live_count lookup remove
live_count-remove id [] h = absurd (ground arith)
live_count-remove id ((j, w) ∷ ops) {op} h = ground (arith, live_count-remove id ops {op = op})

pub live_count-insert_new :
    (id : OperationId) (op : RegisteredOperation) (ops : Operations)
    → lookup id ops ≡ none
    → live_count (insert id op ops) ≡ weight op + live_count ops
unfolding live_count lookup insert
live_count-insert_new id op [] h = ground arith
live_count-insert_new id op ((j, w) ∷ ops) h = ground (arith, live_count-insert_new id op ops)

pub live_count-insert_old :
    (id : OperationId) (new : RegisteredOperation) (ops : Operations) {old : RegisteredOperation}
    → lookup id ops ≡ some old
    → weight old + live_count (insert id new ops) ≡ weight new + live_count ops
unfolding live_count lookup insert
live_count-insert_old id new [] h = absurd (ground arith)
live_count-insert_old id new ((j, w) ∷ ops) {old} h =
    ground (arith, live_count-insert_old id new ops {old = old})

pub keys-insert_new :
    (id : OperationId) (op : RegisteredOperation) (ops : Operations)
    → lookup id ops ≡ none
    → keys (insert id op ops) ≡ keys ops ++ id ∷ []
unfolding lookup insert
keys-insert_new id op [] h = refl
keys-insert_new id op ((j, w) ∷ ops) h = ground (arith, keys-insert_new id op ops)

pub keys-insert_old :
    (id : OperationId) (new : RegisteredOperation) (ops : Operations) {old : RegisteredOperation}
    → lookup id ops ≡ some old
    → keys (insert id new ops) ≡ keys ops
unfolding lookup insert
keys-insert_old id new [] h = absurd (ground arith)
keys-insert_old id new ((j, w) ∷ ops) {old} h =
    ground (arith, keys-insert_old id new ops {old = old}, id_eq_iff j id)

pub Distinct-insert :
    (id : OperationId) (op : RegisteredOperation) (ops : Operations)
    → Distinct ops
    → Distinct (insert id op ops)
unfolding lookup insert
Distinct-insert id op [] d = (refl, tt)
Distinct-insert id op ((j, w) ∷ ops) d = ground (
  arith,
  Distinct-insert id op ops d.1,
  lookup-insert id j op ops,
  id_eq_iff j id,
  id_eq_iff id j,
)

pub Distinct-remove :
    (id : OperationId) (ops : Operations) → Distinct ops → Distinct (remove id ops)
unfolding lookup remove
Distinct-remove id [] d = tt
Distinct-remove id ((j, w) ∷ ops) d =
    ground (arith, Distinct-remove id ops d.1, lookup-remove id j ops d.1)

pub length-insert_new :
    (id : OperationId) (op : RegisteredOperation) (ops : Operations)
    → lookup id ops ≡ none
    → length (insert id op ops) ≡ length ops + 1
unfolding lookup insert
length-insert_new id op [] h = ground arith
length-insert_new id op ((j, w) ∷ ops) h = ground (arith, length-insert_new id op ops)

pub length-insert_old :
    (id : OperationId) (new : RegisteredOperation) (ops : Operations) {old : RegisteredOperation}
    → lookup id ops ≡ some old
    → length (insert id new ops) ≡ length ops
unfolding lookup insert
length-insert_old id new [] h = absurd (ground arith)
length-insert_old id new ((j, w) ∷ ops) {old} h =
    ground (arith, length-insert_old id new ops {old = old})

pub length-remove :
    (id : OperationId) (ops : Operations) {op : RegisteredOperation}
    → lookup id ops ≡ some op
    → length (remove id ops) + 1 ≡ length ops
unfolding lookup remove
length-remove id [] h = absurd (ground arith)
length-remove id ((j, w) ∷ ops) {op} h = ground (arith, length-remove id ops {op = op})

-- Where nothing is live, every operation has ended.
pub none_live :
    (id : OperationId) (ops : Operations) (op : RegisteredOperation)
    → live_count ops ≡ 0
    → lookup id ops ≡ some op
    → is_terminal op.state ≡ true
none_live id ops op none_left e =
    let light : weight op ≡ 0 = omega (arith, live_count-remove id ops {op = op} e) in
    ground (arith, light)
