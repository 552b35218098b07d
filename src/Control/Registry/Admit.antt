-- ===== src/Control/Registry/Admit.antt =====
-- Admission: what each branch of `admit` leaves in the registry.
use clash_nyanpasu_service.Shared.{
  ℕ, ◌+◌, ◌≤◌, ◌<◌, ◌%◌, ◌^◌, ◌≡◌, ◌≢◌, refl, ap, sym, ◌∙◌, ◌⊎◌, inl, inr, true, none, some, List,
  [], ◌∷◌, ◌++◌, arith, length, Bool-cases, Option-cases, Bytes, bytes_eq, bytes_eq_iff, subst,
}
use clash_nyanpasu_service.Shared.Assoc.{lookup, insert, remove, lookup-insert}
use clash_nyanpasu_service.Control.OperationId.{OperationId, id_eq_iff, id_key}
use clash_nyanpasu_service.Control.Command.{CoreError, queued, is_terminal}
use clash_nyanpasu_service.Control.Registry.{
  RegisteredOperation, Operations, Registry, Admission, SendOutcome, sent, registered, existing,
  refused, is_terminal_in, evict, register, unregister, admit, finish_admit, conflict_error,
  full_error, gone_error, pop_back,
}
use clash_nyanpasu_service.Control.Registry.Live.{
  live_count, Coherent, Distinct-insert, keys-insert_new, live_count-insert_new, length-insert_new,
}
use clash_nyanpasu_service.Control.Registry.Evict.{Evicts, evict-Evicts}

remove-insert :
    (id : OperationId) (op : RegisteredOperation) (ops : Operations)
    → lookup id ops ≡ none
    → remove id (insert id op ops) ≡ ops
unfolding lookup insert remove
remove-insert id op [] h = ground (arith, id_eq_iff id id)
remove-insert id op ((j, w) ∷ ops) h = ground (arith, remove-insert id op ops, id_eq_iff j id)

pop_back-append {ℓ} : {A : Type ℓ} (xs : List A) (x : A) → pop_back (xs ++ x ∷ []) ≡ xs
unfolding pop_back
pop_back-append [] x = refl
pop_back-append (y ∷ []) x = refl
pop_back-append (y ∷ z ∷ xs) x = ap (◌∷◌ y) (pop_back-append (z ∷ xs) x)

-- A refused enqueue takes the new entry back whole; only the sequence number stays used.
unregister-register :
    (r : Registry) (id : OperationId) (digest : Bytes)
    → lookup id r.operations ≡ none
    → unregister (register r id digest) id
      ≡ record r { next_sequence = (r.next_sequence + 1) % 2 ^ 64 }
unfolding unregister register
unregister-register r id digest h =
    cc (remove-insert id _ r.operations h, pop_back-append r.order id)

register-Coherent :
    (r : Registry) (id : OperationId) (digest : Bytes)
    → Coherent r
    → lookup id r.operations ≡ none
    → Coherent (register r id digest)
unfolding register
register-Coherent r id digest c h = record {
  order_keys = keys-insert_new id _ r.operations h ∙ ap (λ ks. ks ++ id ∷ []) c.order_keys;
  distinct = Distinct-insert id _ r.operations c.distinct;
}

-- What a successful registration leaves, apart from what eviction took.
pub record Registers (r : Registry) (id : OperationId) (digest : Bytes) (q : Registry)
    : Type 0 where
  pub coherent : Coherent q
  pub same_capacity : q.capacity ≡ r.capacity
  pub sequence : q.next_sequence ≡ (r.next_sequence + 1) % 2 ^ 64
  pub one_more : live_count q.operations ≡ live_count r.operations + 1
  pub entry :
      lookup id q.operations
      ≡ some (record { digest = digest; sequence = r.next_sequence; state = queued })
  pub others :
      (j : OperationId)
      → j ≢ id
      → (lookup j q.operations ≡ lookup j r.operations)
        ⊎ ((is_terminal_in r.operations j ≡ true) × (lookup j q.operations ≡ none))
  pub bounded : live_count r.operations < r.capacity → length q.operations ≤ r.capacity

lookup_evicted :
    (r : Registry) (id : OperationId)
    → Coherent r
    → lookup id r.operations ≡ none
    → lookup id (evict r).operations ≡ none
lookup_evicted r id c h = elim ((evict-Evicts r c).0.kept id) [ inl e ↦ e ∙ h | inr (t, e) ↦ e ]

register-Registers :
    (r : Registry) (id : OperationId) (digest : Bytes)
    → Coherent r
    → lookup id r.operations ≡ none
    → Registers r id digest (register (evict r) id digest)
unfolding register is_terminal
register-Registers r id digest c h =
    let (ev, room) = evict-Evicts r c in
    let gone = lookup_evicted r id c h in
    record {
      coherent = register-Coherent (evict r) id digest ev.coherent gone;
      same_capacity = ev.same_capacity;
      sequence = ap (λ n. (n + 1) % 2 ^ 64) ev.same_sequence;
      one_more = omega (
        arith,
        live_count-insert_new id
            (record { digest = digest; sequence = (evict r).next_sequence; state = queued })
            (evict r).operations gone,
        ev.same_live,
      );
      entry = ground (
        arith,
        lookup-insert id id
            (record { digest = digest; sequence = (evict r).next_sequence; state = queued })
            (evict r).operations,
        id_eq_iff id id,
        ev.same_sequence,
      );
      others = λ j ne. ground (
        arith,
        lookup-insert id j
            (record { digest = digest; sequence = (evict r).next_sequence; state = queued })
            (evict r).operations,
        id_eq_iff id j,
        ev.kept j,
      );
      bounded = λ few. omega (
        arith,
        length-insert_new id
            (record { digest = digest; sequence = (evict r).next_sequence; state = queued })
            (evict r).operations gone,
        room,
        ev.same_live,
      );
    }

rejected :
    (r : Registry) (id : OperationId) (digest : Bytes)
    → Coherent r
    → lookup id r.operations ≡ none
    → Evicts r
        (record (unregister (register (evict r) id digest) id) { next_sequence = r.next_sequence })
rejected r id digest c h =
    let ev = (evict-Evicts r c).0 in
    rw (unregister-register (evict r) id digest (lookup_evicted r id c h)) (record {
      coherent = record { order_keys = ev.coherent.order_keys; distinct = ev.coherent.distinct };
      same_live = ev.same_live;
      shorter = ev.shorter;
      same_capacity = ev.same_capacity;
      same_sequence = refl;
      kept = ev.kept;
    })

module _ {S : Type 0} where
  -- The four ways in which `admit` ends.
  pub data AdmitCase (r : Registry) (id : OperationId) (digest : Bytes)
      (enqueue : S → S × SendOutcome) (s : S) (out : Registry × S × Admission) : Type 0 where
    attaches :
        (op : RegisteredOperation)
        → lookup id r.operations ≡ some op
        → op.digest ≡ digest
        → out ≡ (r, s, existing op.sequence)
        → AdmitCase r id digest enqueue s out
    conflicts :
        (op : RegisteredOperation)
        → lookup id r.operations ≡ some op
        → op.digest ≢ digest
        → out ≡ (r, s, refused (conflict_error id))
        → AdmitCase r id digest enqueue s out
    registers :
        (q : Registry)
        → lookup id r.operations ≡ none
        → (enqueue s).1 ≡ sent
        → Registers r id digest q
        → out ≡ (q, (enqueue s).0, registered r.next_sequence)
        → AdmitCase r id digest enqueue s out
    rejects :
        (e : CoreError) (q : Registry)
        → lookup id r.operations ≡ none
        → (enqueue s).1 ≢ sent
        → Evicts r (record q { next_sequence = r.next_sequence })
        → out ≡ (q, (enqueue s).0, refused e)
        → AdmitCase r id digest enqueue s out

  new_cases :
      (r : Registry) (id : OperationId) (digest : Bytes) (enqueue : S → S × SendOutcome) (s : S)
      (p : S × SendOutcome)
      → Coherent r
      → lookup id r.operations ≡ none
      → enqueue s ≡ p
      → AdmitCase r id digest enqueue s
          (finish_admit (register (evict r) id digest) id (evict r).next_sequence p)
  unfolding finish_admit
  new_cases r id digest enqueue s (s', SendOutcome.sent) c h e =
      registers (register (evict r) id digest) h (ap (λ x. x.1) e)
        (register-Registers r id digest c h)
        (cc (ap (λ x. x.0) e, (evict-Evicts r c).0.same_sequence))
  new_cases r id digest enqueue s (s', SendOutcome.full) c h e =
      rejects (full_error id) (unregister (register (evict r) id digest) id) h
        (λ t. absurd (cc (ap (λ x. x.1) e, t))) (rejected r id digest c h) (cc (ap (λ x. x.0) e))
  new_cases r id digest enqueue s (s', SendOutcome.closed) c h e =
      rejects (gone_error id) (unregister (register (evict r) id digest) id) h
        (λ t. absurd (cc (ap (λ x. x.1) e, t))) (rejected r id digest c h) (cc (ap (λ x. x.0) e))

  pub admit_cases :
      (r : Registry) (id : OperationId) (digest : Bytes) (enqueue : S → S × SendOutcome) (s : S)
      → Coherent r
      → AdmitCase r id digest enqueue s (admit r id digest enqueue s)
  unfolding admit
  admit_cases r id digest enqueue s c = elim (Option-cases (lookup id r.operations)) [
    | inl e ↦ rw (e, admit) (new_cases r id digest enqueue s (enqueue s) c e refl)
    | inr (op, e) ↦ elim (Bool-cases (bytes_eq op.digest digest)) [
      | inl same ↦ rw (e, admit, same) (attaches op e ((bytes_eq_iff op.digest digest).0 same) refl)
      | inr other ↦
          rw (e, admit, other)
            (conflicts op e (λ t. absurd (cc (other, (bytes_eq_iff op.digest digest).1 t))) refl)
    ]
  ]

  pub admit_attached :
      (r : Registry) (id : OperationId) (digest : Bytes) (enqueue : S → S × SendOutcome) (s : S)
      (op : RegisteredOperation)
      → lookup id r.operations ≡ some op
      → op.digest ≡ digest
      → admit r id digest enqueue s ≡ (r, s, existing op.sequence)
  unfolding admit
  admit_attached r id digest enqueue s op e d = rw (e, admit, (bytes_eq_iff op.digest digest).1 d)

  pub admit_conflicting :
      (r : Registry) (id : OperationId) (digest : Bytes) (enqueue : S → S × SendOutcome) (s : S)
      (op : RegisteredOperation)
      → lookup id r.operations ≡ some op
      → op.digest ≢ digest
      → admit r id digest enqueue s ≡ (r, s, refused (conflict_error id))
  unfolding admit
  admit_conflicting r id digest enqueue s op e d =
      rw (e, admit) (ground (arith, bytes_eq_iff op.digest digest))

  pub registered_entry :
      (r : Registry) (id : OperationId) (digest : Bytes) (enqueue : S → S × SendOutcome) (s : S)
      (out : Registry × S × Admission) {q : Registry} {s' : S} {n : ℕ}
      → AdmitCase r id digest enqueue s out
      → out ≡ (q, s', registered n)
      → lookup id q.operations ≡ some (record { digest = digest; sequence = n; state = queued })
  registered_entry r id digest enqueue s out (attaches op e d o) h = absurd (cc (sym o ∙ h))
  registered_entry r id digest enqueue s out (conflicts op e d o) h = absurd (cc (sym o ∙ h))
  registered_entry r id digest enqueue s out (rejects e q' l x ev o) h = absurd (cc (sym o ∙ h))
  registered_entry r id digest enqueue s out {q} {s'} {n} (registers q' l x reg o) h =
      let same : q' ≡ q = ap (λ x. x.0) (sym o ∙ h) in
      let number : r.next_sequence ≡ n = cc (sym o ∙ h) in
      subst
        (λ t.
          lookup id t.operations ≡ some (record { digest = digest; sequence = n; state = queued }))
        same
        (subst
          (λ m.
            lookup id q'.operations
            ≡ some (record { digest = digest; sequence = m; state = queued }))
          number reg.entry)
