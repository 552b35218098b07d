-- ===== src/Manager/Lifecycle/Refusals.antt =====
-- The refusals: a quarantined manager, and a caller that expects another revision.
use clash_nyanpasu_service.Shared.{
  ◌≡◌, ◌≢◌, refl, ◌∙◌, true, false, Option, none, some, Bool-cases, inl, inr, arith, bytes_eq_iff,
}
use clash_nyanpasu_service.Failure.{Error, RevisionId}
use clash_nyanpasu_service.Control.Command.{revision_id}
use clash_nyanpasu_service.Control.Execute.{InstanceSpec}
use clash_nyanpasu_service.Manager.Quarantine.{quarantine_error}
use clash_nyanpasu_service.Manager.Effects.{Result, err, Host, observe}
use clash_nyanpasu_service.Manager.Fallible.{◌>>◌, proceed}
use clash_nyanpasu_service.Manager.Session.{Active, Session, Tx, call, is_ended}
use clash_nyanpasu_service.Manager.Apply.{revision_id_eq}
use clash_nyanpasu_service.Manager.Apply.Conflicts.{apply_locked-conflict}
use clash_nyanpasu_service.Manager.Lifecycle.{
  admitted, reject_quarantine, start, switch, restart, apply_config, reconcile,
}

same_revision : (a b : RevisionId) → revision_id_eq a b ≡ true → a ≡ b
unfolding revision_id_eq
same_revision a b e =
    let epochs : a.epoch ≡ b.epoch = ground arith in
    let generations : a.generation ≡ b.generation = ground arith in
    let hashes : a.effective_hash ≡ b.effective_hash =
      (bytes_eq_iff a.effective_hash b.effective_hash).0 (ground arith) in
    λ i. record { epoch = epochs i; generation = generations i; effective_hash = hashes i }

other_revision : (a b : RevisionId) → a ≢ b → revision_id_eq a b ≡ false
other_revision a b ne = elim (Bool-cases (revision_id_eq a b)) [
  | inl same ↦ absurd (ne (same_revision a b same))
  | inr differs ↦ differs
]

module _ (h : Host) where
  -- What follows the gate is not begun.
  refused :
      {A : Type 0} (m : Tx h (Result A)) (error : Error) (s : Session h)
      → quarantine_error s.quarantine ≡ some error
      → (reject_quarantine h >> m) s ≡ (s, err error)
  unfolding reject_quarantine ◌>>◌ proceed admitted
  refused m error s e = rw e refl

  -- While an epoch is quarantined, `start`, `switch`, `restart`, `apply_config` and `reconcile` each answer
  -- with the quarantine's error, and leave the whole state and the host as they are.
  pub quarantined_lem :
      (spec : InstanceSpec) (expected : Option RevisionId) (error : Error) (s : Session h)
      → quarantine_error s.quarantine ≡ some error
      → (start h spec s ≡ (s, err error))
        × (switch h spec s ≡ (s, err error))
        × (restart h s ≡ (s, err error))
        × (apply_config h spec expected s ≡ (s, err error))
        × (reconcile h spec expected s ≡ (s, err error))
  unfolding start switch restart apply_config reconcile
  quarantined_lem spec expected error s e = (
    refused _ error s e,
    refused _ error s e,
    refused _ error s e,
    refused _ error s e,
    refused _ error s e,
  )

  passed :
      {A : Type 0} (m : Tx h (Result A)) (s : Session h)
      → quarantine_error s.quarantine ≡ none
      → (reject_quarantine h >> m) s ≡ m s
  unfolding reject_quarantine ◌>>◌ proceed admitted
  passed m s e = rw e refl

  -- Where nothing is quarantined, a core runs and the caller expects another revision than its plan
  -- has, be it in the epoch, the generation or the hash alone, `apply_config` answers
  -- with a revision conflict that tells the actual revision, and but for the look at the core it leaves
  -- the whole state and the host as they are.
  pub apply_config-conflict :
      (a : Active h) (input : InstanceSpec) (expected : RevisionId) (s : Session h)
      → quarantine_error s.quarantine ≡ none
      → s.current ≡ some a
      → is_ended (call h (observe a.instance) s).1.state ≡ false
      → expected ≢ revision_id a.plan.revision
      → apply_config h input (some expected) s ≡ (
        (call h (observe a.instance) s).0,
        err (Error.revision_conflict expected (some (revision_id a.plan.revision))),
      )
  unfolding apply_config
  apply_config-conflict a input expected s q c r ne =
      passed _ s q
      ∙ apply_locked-conflict h a input expected s c r
          (other_revision expected (revision_id a.plan.revision) ne)
