-- ===== src/Control/Plane/Submit.antt =====
-- `submit` as its caller sees it.
use clash_nyanpasu_service.Shared.{
  ℕ, Bytes, subst, some, ◌≡◌, ◌≢◌, ◌↔◌, ◌⊎◌, inl, inr, refl, sym, ◌∙◌, Bool, true, false, arith,
  if◌then◌else◌,
}
use clash_nyanpasu_service.Shared.Assoc.{lookup}
use clash_nyanpasu_service.Control.OperationId.{OperationId, id_key}
use clash_nyanpasu_service.Control.Command.{
  LocalIpcSettings, CoreCommandEnvelope, CoreCommand, reconcile, stop, recover, shutdown,
  command_digest, queued,
}
use clash_nyanpasu_service.Control.Registry.{
  RegisteredOperation, Admission, ExecutorWork, registered, existing, refused, admit,
  conflict_error,
}
use clash_nyanpasu_service.Control.Registry.Live.{Coherent}
use clash_nyanpasu_service.Control.Registry.Admit.{
  admit_cases, registered_entry, admit_attached, admit_conflicting,
}
use clash_nyanpasu_service.Control.Channel.{Channel}
use clash_nyanpasu_service.Control.Plane.{
  Plane, Reach, here, next, admits, latches, latch, latch_if, submit, shutting_down_error,
  admit_command, resolve_settings, is_shutdown,
}

module _ (c : Channel) where
  latch_if-Reach :
      (b : Bool) (a : Admission) (p q : Plane c) → Reach c p q → Reach c p (latch_if c b a q)
  unfolding latch_if
  latch_if-Reach true (registered n) p q r = next r (latches refl)
  latch_if-Reach true (existing n) p q r = r
  latch_if-Reach true (refused e) p q r = r
  latch_if-Reach false _ p q r = r

  admit_command-closing :
      (p : Plane c) (id : OperationId) (command : CoreCommand)
      → (admit_command c p id command).0.closing ≡ p.closing
  unfolding admit_command
  admit_command-closing p id command = refl

  -- What a call of `submit` leaves: a closing plane as it is, with a refusal; an open plane after steps
  -- of the control plane, closing exactly if the call registered a shutdown.
  abbrev pub Submitted :
      LocalIpcSettings → Plane c → CoreCommandEnvelope → Plane c × Admission → Type 0
  Submitted default p envelope (q, a) =
      ((p.closing ≡ true) × (q ≡ p) × (a ≡ refused (shutting_down_error envelope.operation_id)))
      ⊎ ((p.closing ≡ false)
          × Reach c p q
          × ((q.closing ≡ true) ↔ (
              (resolve_settings default envelope.command ≡ shutdown)
              × (n : ℕ) × (a ≡ registered n))))

  latch_if-closing :
      (command : CoreCommand) (a : Admission) (q : Plane c)
      → q.closing ≡ false
      → ((latch_if c (is_shutdown command) a q).closing ≡ true)
        ↔ ((command ≡ shutdown) × (n : ℕ) × (a ≡ registered n))
  unfolding latch_if latch is_shutdown
  latch_if-closing shutdown (registered n) q o = (λ e. (refl, n, refl), λ e. refl)
  latch_if-closing shutdown (existing n) q o = (λ e. absurd (cc (o, e)), λ (e, m, f). absurd (cc f))
  latch_if-closing shutdown (refused x) q o = (λ e. absurd (cc (o, e)), λ (e, m, f). absurd (cc f))
  latch_if-closing stop a q o = (λ e. absurd (cc (o, e)), λ (e, m, f). absurd (cc e))
  latch_if-closing recover a q o = (λ e. absurd (cc (o, e)), λ (e, m, f). absurd (cc e))
  latch_if-closing (reconcile r) a q o = (λ e. absurd (cc (o, e)), λ (e, m, f). absurd (cc e))

  guarded :
      (b : Bool) (default : LocalIpcSettings) (p : Plane c) (envelope : CoreCommandEnvelope)
      (y : Plane c × Admission)
      → p.closing ≡ b
      → (p.closing ≡ false → Submitted default p envelope y)
      → Submitted default p envelope
          (if b then (p, refused (shutting_down_error envelope.operation_id)) else y)
  guarded true default p envelope y e h = inl (e, refl, refl)
  guarded false default p envelope y e h = h e

  -- A call of `submit`, with no other thread between its parts: a plane that is closing refuses with the
  -- error of a shutdown and stays as it is; on an open one the call is steps of the control plane, and
  -- the plane is closing afterwards exactly if the call registered a shutdown.
  pub submit-outcome :
      (default : LocalIpcSettings) (p : Plane c) (envelope : CoreCommandEnvelope)
      → Submitted default p envelope (submit c default p envelope)
  unfolding submit
  submit-outcome default p envelope = guarded p.closing default p envelope _ refl (λ open'. inr (
    open',
    latch_if-Reach _ _ p _ (next here (admits _ _ refl)),
    latch_if-closing (resolve_settings default envelope.command) _ _ (
        admit_command-closing p envelope.operation_id (resolve_settings default envelope.command)
        ∙ open'),
  ))

  -- The work and the digest under which `submit` admits an envelope.
  abbrev work_of : LocalIpcSettings → CoreCommandEnvelope → ExecutorWork
  work_of default envelope = record {
    id = envelope.operation_id;
    command = resolve_settings default envelope.command;
  }

  abbrev digest_of : LocalIpcSettings → CoreCommandEnvelope → Bytes
  digest_of default envelope = command_digest (resolve_settings default envelope.command)

  submitted :
      (default : LocalIpcSettings) (p : Plane c) (envelope : CoreCommandEnvelope) (q : Plane c)
      (n : ℕ)
      → is_shutdown (resolve_settings default envelope.command) ≡ false
      → submit c default p envelope ≡ (q, registered n)
      → (q.closing ≡ false)
        × (admit p.registry envelope.operation_id
              (digest_of default envelope)
              (c.try_send (work_of default envelope))
              p.queue
            ≡ (q.registry, q.queue, registered n))
  unfolding submit admit_command latch_if
  submitted default p envelope q n plain h = ground arith

  answered :
      (default : LocalIpcSettings) (q : Plane c) (envelope : CoreCommandEnvelope) (a : Admission)
      → q.closing ≡ false
      → ((n : ℕ) → a ≢ registered n)
      → admit q.registry envelope.operation_id
          (digest_of default envelope)
          (c.try_send (work_of default envelope))
          q.queue
        ≡ (q.registry, q.queue, a)
      → submit c default q envelope ≡ (q, a)
  unfolding submit admit_command latch_if
  answered default q envelope (registered n) open' ne h = absurd (ne n refl)
  answered default q envelope (existing n) open' ne h = ground arith
  answered default q envelope (refused e) open' ne h = ground arith

  -- An envelope, not of a shutdown, that a plane with a coherent registry has just admitted: submitted
  -- again it attaches to the same operation under the same sequence number and changes nothing, and an
  -- envelope with its id and another digest is refused as a conflict and changes nothing.
  pub submit_again :
      (default : LocalIpcSettings) (p : Plane c) (envelope other : CoreCommandEnvelope)
      (q : Plane c) (n : ℕ)
      → Coherent p.registry
      → is_shutdown (resolve_settings default envelope.command) ≡ false
      → other.operation_id ≡ envelope.operation_id
      → command_digest (resolve_settings default other.command)
        ≢ command_digest (resolve_settings default envelope.command)
      → submit c default p envelope ≡ (q, registered n)
      → (submit c default q envelope ≡ (q, existing n))
        × (submit c default q other ≡ (q, refused (conflict_error envelope.operation_id)))
  submit_again default p envelope other q n v plain same differs h =
      let (open', e) = submitted default p envelope q n plain h in
      let op : RegisteredOperation = record {
        digest = digest_of default envelope;
        sequence = n;
        state = queued;
      } in
      let entry : lookup envelope.operation_id q.registry.operations ≡ some op =
        registered_entry p.registry envelope.operation_id (digest_of default envelope)
          (c.try_send (work_of default envelope)) p.queue _ {q = q.registry} {s' = q.queue} {n = n}
          (admit_cases p.registry envelope.operation_id (digest_of default envelope)
            (c.try_send (work_of default envelope)) p.queue v)
          e in
      (
        answered default q envelope (existing n) open' (λ m t. cc t)
            (admit_attached q.registry envelope.operation_id (digest_of default envelope)
              (c.try_send (work_of default envelope)) q.queue op entry refl),
        answered default q other (refused (conflict_error envelope.operation_id)) open'
            (λ m t. cc t)
            (subst
              (λ i.
                admit q.registry i (digest_of default other)
                  (c.try_send (record { id = i; command = resolve_settings default other.command }))
                  q.queue
                ≡ (q.registry, q.queue, refused (conflict_error envelope.operation_id)))
              (sym same)
              (admit_conflicting q.registry envelope.operation_id (digest_of default other)
                (c.try_send (record {
                  id = envelope.operation_id;
                  command = resolve_settings default other.command;
                }))
                q.queue op entry (λ t. differs (sym t)))),
      )
