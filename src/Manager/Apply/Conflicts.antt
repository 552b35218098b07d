-- ===== src/Manager/Apply/Conflicts.antt =====
-- The comparison of revisions at the head of `apply_locked`.
use clash_nyanpasu_service.Shared.{◌≡◌, refl, ◌∙◌, ap, not, Bool, true, false, some}
use clash_nyanpasu_service.Failure.{Error, RevisionId}
use clash_nyanpasu_service.Control.Command.{revision_id}
use clash_nyanpasu_service.Control.Execute.{InstanceSpec}
use clash_nyanpasu_service.Manager.Effects.{err, Host, observe}
use clash_nyanpasu_service.Manager.Session.{Active, Session, call, is_ended}
use clash_nyanpasu_service.Manager.Apply.{
  apply_matched, apply_expected, apply_running, apply_to, apply_locked, revision_id_eq,
}

module _ (h : Host) where
  apply_expected-conflict :
      (a : Active h) (input : InstanceSpec) (expected : RevisionId) (s : Session h)
      → revision_id_eq expected (revision_id a.plan.revision) ≡ false
      → apply_expected h a input (some expected) s
        ≡ (s, err (Error.revision_conflict expected (some (revision_id a.plan.revision))))
  unfolding apply_expected apply_matched
  apply_expected-conflict a input expected s e = rw e refl

  apply_running-conflict :
      (b : Bool) (a : Active h) (input : InstanceSpec) (expected : RevisionId) (s : Session h)
      → b ≡ true
      → revision_id_eq expected (revision_id a.plan.revision) ≡ false
      → apply_running h b a input (some expected) s
        ≡ (s, err (Error.revision_conflict expected (some (revision_id a.plan.revision))))
  unfolding apply_running
  apply_running-conflict true a input expected s r e = apply_expected-conflict a input expected s e
  apply_running-conflict false a input expected s r e = absurd (cc r)

  apply_to-conflict :
      (a : Active h) (input : InstanceSpec) (expected : RevisionId) (s : Session h)
      → is_ended (call h (observe a.instance) s).1.state ≡ false
      → revision_id_eq expected (revision_id a.plan.revision) ≡ false
      → apply_to h (some a) input (some expected) s ≡ (
        (call h (observe a.instance) s).0,
        err (Error.revision_conflict expected (some (revision_id a.plan.revision))),
      )
  unfolding apply_to
  apply_to-conflict a input expected s r e =
      apply_running-conflict _ a input expected _ (ap not r) e

  pub apply_locked-conflict :
      (a : Active h) (input : InstanceSpec) (expected : RevisionId) (s : Session h)
      → s.current ≡ some a
      → is_ended (call h (observe a.instance) s).1.state ≡ false
      → revision_id_eq expected (revision_id a.plan.revision) ≡ false
      → apply_locked h input (some expected) s ≡ (
        (call h (observe a.instance) s).0,
        err (Error.revision_conflict expected (some (revision_id a.plan.revision))),
      )
  unfolding apply_locked
  apply_locked-conflict a input expected s c r e =
      ap (λ o. apply_to h o input (some expected) s) c ∙ apply_to-conflict a input expected s r e
