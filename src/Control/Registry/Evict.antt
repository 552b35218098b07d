-- ===== src/Control/Registry/Evict.antt =====
-- Eviction: only operations that have ended go, and they go until there is room.
use clash_nyanpasu_service.Shared.{
  ℕ, zero, suc, ◌+◌, ◌≤◌, ◌<◌, ◌≡◌, refl, ap, sym, ◌∙◌, ◌⊎◌, inl, inr, true, false, none, some,
  List, [], ◌∷◌, arith, if◌then◌else◌, length, Bool-cases, Option-cases, leb,
}
use clash_nyanpasu_service.Shared.Assoc.{lookup, remove, Distinct, lookup-remove}
use clash_nyanpasu_service.Control.OperationId.{OperationId, id_eq, id_eq_iff, id_key}
use clash_nyanpasu_service.Control.Command.{is_terminal}
use clash_nyanpasu_service.Control.Registry.{
  RegisteredOperation, Operations, Registry, is_terminal_in, keys, take_terminal, evict_one,
  evict_loop, evict,
}
use clash_nyanpasu_service.Control.Registry.Live.{
  weight, live_count, Coherent, live_count-remove, Distinct-remove, length-remove,
}

-- A list without the first occurrence of an id.
erase : OperationId → List OperationId → List OperationId
erase k [] = []
erase k (j ∷ js) = if id_eq j k then js else j ∷ erase k js

keys-remove : (k : OperationId) (ops : Operations) → keys (remove k ops) ≡ erase k (keys ops)
unfolding remove erase
keys-remove k [] = refl
keys-remove k ((j, w) ∷ ops) = ground (arith, keys-remove k ops)

take_terminal_sound :
    (ops : Operations) (ids : List OperationId) {id : OperationId} {rest : List OperationId}
    → take_terminal ops ids ≡ some (id, rest)
    → (is_terminal_in ops id ≡ true) × (rest ≡ erase id ids)
unfolding take_terminal erase
take_terminal_sound ops [] h = absurd (ground arith)
take_terminal_sound ops (j ∷ js) {id} {rest} h = elim (Bool-cases (is_terminal_in ops j)) [
  | inl e ↦ ground (arith, id_eq_iff j id)
  | inr e ↦ elim (Option-cases (take_terminal ops js)) [
    | inl no' ↦ absurd (ground arith)
    | inr ((found, others), some') ↦
        ground
          (arith, take_terminal_sound ops js {id = found} {rest = others} some', id_eq_iff j id)
  ]
]

-- An entry that has not ended, of an id that stands nowhere else, hides nothing behind it.
is_terminal_in-tail :
    (k : OperationId) (op : RegisteredOperation) (ops : Operations) (id : OperationId)
    → lookup k ops ≡ none
    → is_terminal op.state ≡ false
    → is_terminal_in ((k, op) ∷ ops) id ≡ is_terminal_in ops id
unfolding is_terminal_in lookup
is_terminal_in-tail k op ops id fresh live = ground (arith, id_eq_iff k id)

take_terminal-tail :
    (k : OperationId) (op : RegisteredOperation) (ops : Operations) (ids : List OperationId)
    → lookup k ops ≡ none
    → is_terminal op.state ≡ false
    → take_terminal ((k, op) ∷ ops) ids ≡ take_terminal ops ids
unfolding take_terminal
take_terminal-tail k op ops [] fresh live = refl
take_terminal-tail k op ops (id ∷ ids) fresh live =
    ground (
      arith,
      is_terminal_in-tail k op ops id fresh live,
      take_terminal-tail k op ops ids fresh live,
    )

take_terminal-none :
    (k : OperationId) (op : RegisteredOperation) (ops : Operations) (ids : List OperationId)
    → take_terminal ((k, op) ∷ ops) (k ∷ ids) ≡ none
    → (is_terminal op.state ≡ false) × (take_terminal ((k, op) ∷ ops) ids ≡ none)
unfolding take_terminal is_terminal_in lookup
take_terminal-none k op ops ids h = ground (arith, id_eq_iff k k)

-- When no operation has ended, all are live.
all_live :
    (ops : Operations)
    → Distinct ops
    → take_terminal ops (keys ops) ≡ none
    → live_count ops ≡ length ops
unfolding live_count
all_live [] d h = refl
all_live ((k, op) ∷ ops) d h =
    let (live, rest) = take_terminal-none k op ops (keys ops) h in
    ground (arith, all_live ops d.1, take_terminal-tail k op ops (keys ops) d.0 live)

-- What eviction keeps.
pub record Evicts (r r' : Registry) : Type 0 where
  pub coherent : Coherent r'
  pub same_live : live_count r'.operations ≡ live_count r.operations
  pub shorter : length r'.operations ≤ length r.operations
  pub same_capacity : r'.capacity ≡ r.capacity
  pub same_sequence : r'.next_sequence ≡ r.next_sequence
  pub kept :
      (id : OperationId)
      → (lookup id r'.operations ≡ lookup id r.operations)
        ⊎ ((is_terminal_in r.operations id ≡ true) × (lookup id r'.operations ≡ none))

Kept-trans :
    (r s t : Registry) (id : OperationId)
    → (lookup id s.operations ≡ lookup id r.operations)
      ⊎ ((is_terminal_in r.operations id ≡ true) × (lookup id s.operations ≡ none))
    → (lookup id t.operations ≡ lookup id s.operations)
      ⊎ ((is_terminal_in s.operations id ≡ true) × (lookup id t.operations ≡ none))
    → (lookup id t.operations ≡ lookup id r.operations)
      ⊎ ((is_terminal_in r.operations id ≡ true) × (lookup id t.operations ≡ none))
unfolding is_terminal_in
Kept-trans r s t id a b = ground arith

pub Evicts-refl : (r : Registry) → Coherent r → Evicts r r
Evicts-refl r c = record {
  coherent = c;
  same_live = refl;
  shorter = omega arith;
  same_capacity = refl;
  same_sequence = refl;
  kept = λ id. inl refl;
}

terminal-lookup :
    (ops : Operations) (id : OperationId)
    → is_terminal_in ops id ≡ true
    → (op : RegisteredOperation) × (lookup id ops ≡ some op) × (weight op ≡ 0)
unfolding is_terminal_in
terminal-lookup ops id h = elim (Option-cases (lookup id ops)) [
  | inl e ↦ absurd (ground arith)
  | inr (op, e) ↦ (op, e, ground arith)
]

removed-Evicts :
    (r : Registry) (id : OperationId) (rest : List OperationId)
    → Coherent r
    → is_terminal_in r.operations id ≡ true
    → rest ≡ erase id r.order
    → Evicts r (record r { operations = remove id r.operations; order = rest })
removed-Evicts r id rest c t e =
    let (op, found, light) = terminal-lookup r.operations id t in
    record {
      coherent = record {
        order_keys = keys-remove id r.operations ∙ ap (erase id) c.order_keys ∙ sym e;
        distinct = Distinct-remove id r.operations c.distinct;
      };
      same_live = omega (arith, live_count-remove id r.operations {op = op} found);
      shorter = omega (arith, length-remove id r.operations {op = op} found);
      same_capacity = refl;
      same_sequence = refl;
      kept = λ j. ground (arith, lookup-remove id j r.operations c.distinct, id_eq_iff id j);
    }

evict_one-cases :
    (r : Registry)
    → Coherent r
    → ((evict_one r ≡ none) × (live_count r.operations ≡ length r.operations))
      ⊎ ((r' : Registry) × (evict_one r ≡ some r')
          × Evicts r r'
          × (length r'.operations + 1 ≡ length r.operations))
unfolding evict_one
evict_one-cases r c = elim (Option-cases (take_terminal r.operations r.order)) [
  | inl e ↦ inl (
    ground (arith, e),
    all_live r.operations c.distinct (ap (take_terminal r.operations) c.order_keys ∙ e),
  )
  | inr ((id, rest), e) ↦
      let (t, cut) = take_terminal_sound r.operations r.order {id = id} {rest = rest} e in
      let (op, found, light) = terminal-lookup r.operations id t in
      inr (
        record r { operations = remove id r.operations; order = rest },
        ground (arith, e),
        removed-Evicts r id rest c t cut,
        length-remove id r.operations {op = op} found,
      )
]

Evicts-trans : {r s t : Registry} → Evicts r s → Evicts s t → Evicts r t
Evicts-trans {r} {s} {t} a b = record {
  coherent = b.coherent;
  same_live = b.same_live ∙ a.same_live;
  shorter = omega (arith, a.shorter, b.shorter);
  same_capacity = b.same_capacity ∙ a.same_capacity;
  same_sequence = b.same_sequence ∙ a.same_sequence;
  kept = λ id. Kept-trans r s t id (a.kept id) (b.kept id);
}

evict_loop-Evicts :
    (fuel : ℕ) (r : Registry)
    → Coherent r
    → length r.operations < fuel
    → Evicts r (evict_loop fuel r)
      × ((length (evict_loop fuel r).operations < r.capacity)
          ⊎ (live_count r.operations ≡ length (evict_loop fuel r).operations))
unfolding evict_loop
evict_loop-Evicts zero r c h = absurd (omega arith)
evict_loop-Evicts (suc fuel) r c h = elim (Bool-cases (leb r.capacity (length r.operations))) [
  | inr e ↦ rw e (Evicts-refl r c, inl (ground arith))
  | inl e ↦ elim (evict_one-cases r c) [
    | inl (stop, all) ↦ rw (e, stop) (Evicts-refl r c, inr all)
    | inr (r', go, ev, less) ↦
        let (rest, bound) = evict_loop-Evicts fuel r' ev.coherent (omega arith) in
        rw (e, go) (Evicts-trans ev rest, ground (arith, bound, ev.same_capacity, ev.same_live))
  ]
]

length-keys : (ops : Operations) → length (keys ops) ≡ length ops
length-keys [] = refl
length-keys (e ∷ ops) = ap suc (length-keys ops)

-- Eviction in a coherent registry takes only operations that have ended, leaves every other entry as
-- it is, and makes room: fewer entries than the capacity remain, or all that remain are live.
pub evict-Evicts :
    (r : Registry)
    → Coherent r
    → Evicts r (evict r)
      × ((length (evict r).operations < r.capacity)
          ⊎ (live_count r.operations ≡ length (evict r).operations))
unfolding evict
evict-Evicts r c =
    evict_loop-Evicts (suc (length r.order)) r c
      (omega (arith, length-keys r.operations, ap length c.order_keys))

-- An operation that has not ended keeps its entry where only ended ones may go.
pub live_kept :
    (r q : Registry) (j : OperationId) (op : RegisteredOperation)
    → (lookup j q.operations ≡ lookup j r.operations)
      ⊎ ((is_terminal_in r.operations j ≡ true) × (lookup j q.operations ≡ none))
    → lookup j r.operations ≡ some op
    → is_terminal op.state ≡ false
    → lookup j q.operations ≡ some op
unfolding is_terminal_in
live_kept r q j op k e live = ground arith
