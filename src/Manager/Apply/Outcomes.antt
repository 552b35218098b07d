-- ===== src/Manager/Apply/Outcomes.antt =====
-- `apply_locked` keeps account of the cores, and its outcome tells the plan that is in the slot.
use clash_nyanpasu_service.Shared.{
  Bytes, ◌≡◌, refl, inl, inr, Bool, true, false, Option, none, some, [],
}
use clash_nyanpasu_service.Failure.{RevisionId}
use clash_nyanpasu_service.Control.Command.{ApplyOutcome, ConfigRevision}
use clash_nyanpasu_service.Control.Execute.{InstanceSpec}
use clash_nyanpasu_service.Manager.Effects.{
  Result, ok, err, EpochPlan, Snapshot, ConfigChange, Host, observe, process_id, load, backup,
  commit_replace, remove_backup,
}
use clash_nyanpasu_service.Manager.Session.{Active, Session}
use clash_nyanpasu_service.Manager.Session.Quiet.{
  Quiet, call-IsQuiet, ◌then◌, publish_instance-IsQuiet,
}
use clash_nyanpasu_service.Manager.Session.Safety.{Safe, Safe-Quiet, Ensures}
use clash_nyanpasu_service.Manager.Session.Retiring.{Held, Held-Quiet}
use clash_nyanpasu_service.Manager.Prepare.{PreparedApply}
use clash_nyanpasu_service.Manager.Prepare.Epochs.{
  IsFor, Gives, prepare_apply-IsQuiet, prepare_apply-IsFor,
}
use clash_nyanpasu_service.Manager.InPlace.{reconcile_in_place-IsQuiet}
use clash_nyanpasu_service.Manager.Launch.Settling.{Settled-Quiet, failed-Settled}
use clash_nyanpasu_service.Manager.Apply.Compensate.Rollback.{
  restart_with_compensation-Done, switch_with_compensation-Done,
}
use clash_nyanpasu_service.Manager.Apply.Compensate.Served.{revision_of}
use clash_nyanpasu_service.Manager.Apply.Compensate.Served.{Done, durable-Done, warned-Done}
use clash_nyanpasu_service.Manager.Apply.{
  in_place_outcome, set_plan, set_last_spec, in_place, apply_committed, apply_saved, apply_change,
  apply_noop, apply_classified, apply_prepared, apply_loaded, apply_admitted, apply_matched,
  apply_expected, apply_running, apply_to, apply_locked,
}

in_place-revision :
    {P : Type 0} (change : ConfigChange P) (r : ConfigRevision)
    → revision_of (in_place_outcome change r) ≡ r
unfolding in_place_outcome revision_of
in_place-revision (ConfigChange.patch p) r = refl
in_place-revision ConfigChange.noop r = refl
in_place-revision ConfigChange.reload r = refl
in_place-revision ConfigChange.switch r = refl

module _ (h : Host) where
  open h use {Instance, Document, Patch, epoch_of}

  -- Another plan for the same instance, with its spec kept.
  replan-Done :
      (input : InstanceSpec) (o : ApplyOutcome) (a : Active h) (plan : EpochPlan Document)
      (s v : Session h)
      → Quiet h (set_plan h a plan s).0 v
      → Held h a s
      → IsFor h input a.plan.revision.epoch plan
      → revision_of o ≡ plan.revision
      → Done h input (ok o) (set_last_spec h plan.source_spec v).0
  unfolding set_plan set_last_spec
  replan-Done input o a plan s v q p (e, f) r = record {
    safe = record {
      accounted = λ j x. elim (p.safe.accounted j (q.live j x)) [
        | inl k ↦ inl k
        | inr (inl (b, d, same)) ↦
            inr (inl (record a { plan = plan }, q.same_current, cc (p.slot, d, same)))
        | inr (inr k) ↦ inr (inr (cc (q.same_quarantine, k)))
      ];
      agrees = λ b c.
          let known = (p.safe.agrees a p.slot).0 in
          (cc (q.same_current, c, known, f), cc (q.same_current, c));
      slot = λ t. absurd (cc t);
    };
    fills =
        (record a { plan = plan }, q.same_current, record { same_revision = r; same_spec = inr e });
  }

  in_place-Done :
      (input : InstanceSpec) (a : Active h) (change : ConfigChange Patch)
      (desired : EpochPlan Document) (saved : Bytes) (warning : Option Bytes) (b : Bool)
      (s : Session h)
      → Held h a s
      → IsFor h input a.plan.revision.epoch desired
      → Done h input
          (in_place h a change desired saved warning b s).1
          (in_place h a change desired saved warning b s).0
  unfolding in_place
  in_place-Done input a change desired saved warning true s p f =
      Settled-Quiet h _ _ _ _ (call-IsQuiet h (remove_backup saved) _) (
        warned-Done h input _ warning _ (
          replan-Done input _ a desired s _
            (◌then◌ h (call-IsQuiet h (process_id a.instance) _)
              (publish_instance-IsQuiet h a.instance _ desired _))
            p f (in_place-revision change desired.revision)))
  in_place-Done input a change desired saved warning false s p f =
      durable-Done h input _ warning _
        (restart_with_compensation-Done h input desired saved f.0 s p.safe)

  apply_committed-Done :
      (input : InstanceSpec) (a : Active h) (change : ConfigChange Patch)
      (desired : EpochPlan Document) (saved : Bytes) (r : Result (Option Bytes)) (s : Session h)
      → Held h a s
      → IsFor h input a.plan.revision.epoch desired
      → Done h input
          (apply_committed h a change desired saved r s).1
          (apply_committed h a change desired saved r s).0
  unfolding apply_committed
  apply_committed-Done input a change desired saved (ok w) s p f =
      in_place-Done input a change desired saved w _ _
        (Held-Quiet h a _ _ (reconcile_in_place-IsQuiet h a change desired s) p) f
  apply_committed-Done input a change desired saved (err e) s p f =
      failed-Settled h _ false e _
        (Safe-Quiet h false [] _ _ (call-IsQuiet h (remove_backup saved) s) p.safe)

  apply_saved-Done :
      (input : InstanceSpec) (a : Active h) (change : ConfigChange Patch) (q : PreparedApply h)
      (r : Result Bytes) (s : Session h)
      → Held h a s
      → IsFor h input a.plan.revision.epoch q.plan
      → Done h input (apply_saved h a change q r s).1 (apply_saved h a change q r s).0
  unfolding apply_saved
  apply_saved-Done input a change q (ok saved) s p f =
      apply_committed-Done input a change q.plan saved _ _
        (Held-Quiet h a _ _ (call-IsQuiet h (commit_replace q.staged _) s) p) f
  apply_saved-Done input a change q (err e) s p f = failed-Settled h _ false e s p.safe

  apply_change-Done :
      (input : InstanceSpec) (a : Active h) (change : ConfigChange Patch) (q : PreparedApply h)
      (s : Session h)
      → Held h a s
      → IsFor h input a.plan.revision.epoch q.plan
      → Done h input (apply_change h a change q s).1 (apply_change h a change q s).0
  unfolding apply_change
  apply_change-Done input a change q s p f =
      apply_saved-Done input a change q _ _ (Held-Quiet h a _ _ (call-IsQuiet h (backup _ _) s) p) f

  apply_noop-Done :
      (input : InstanceSpec) (a : Active h) (s : Session h)
      → Held h a s
      → Done h input (apply_noop h a input s).1 (apply_noop h a input s).0
  unfolding apply_noop revision_of
  apply_noop-Done input a s p =
      replan-Done input _ a (record a.plan { source_spec = input }) s _
        (record { live = λ i x. x; same_current = refl; same_spec = refl; same_quarantine = refl })
        p (refl, refl) refl

  apply_classified-Done :
      (input : InstanceSpec) (a : Active h) (snapshot : Snapshot Document) (q : PreparedApply h)
      (r : Result (ConfigChange Patch)) (s : Session h)
      → Held h a s
      → IsFor h input a.plan.revision.epoch q.plan
      → Done h input
          (apply_classified h a input snapshot q r s).1
          (apply_classified h a input snapshot q r s).0
  unfolding apply_classified
  apply_classified-Done input a snapshot q (ok ConfigChange.noop) s p f =
      apply_noop-Done input a s p
  apply_classified-Done input a snapshot q (ok ConfigChange.switch) s p f =
      switch_with_compensation-Done h input snapshot s p.safe
  apply_classified-Done input a snapshot q (ok ConfigChange.reload) s p f =
      apply_change-Done input a _ q s p f
  apply_classified-Done input a snapshot q (ok (ConfigChange.patch d)) s p f =
      apply_change-Done input a _ q s p f
  apply_classified-Done input a snapshot q (err e) s p f = failed-Settled h _ false e s p.safe

  apply_prepared-Done :
      (input : InstanceSpec) (a : Active h) (snapshot : Snapshot Document)
      (r : Result (PreparedApply h)) (s : Session h)
      → Held h a s
      → Gives h (λ q. IsFor h input a.plan.revision.epoch q.plan) r
      → Done h input
          (apply_prepared h a input snapshot r s).1
          (apply_prepared h a input snapshot r s).0
  unfolding apply_prepared
  apply_prepared-Done input a snapshot (ok q) s p f =
      apply_classified-Done input a snapshot q _ s p f
  apply_prepared-Done input a snapshot (err e) s p f = failed-Settled h _ false e s p.safe

  apply_loaded-Done :
      (input : InstanceSpec) (a : Active h) (r : Result (Snapshot Document)) (s : Session h)
      → Held h a s
      → Done h input (apply_loaded h a input r s).1 (apply_loaded h a input r s).0
  unfolding apply_loaded
  apply_loaded-Done input a (ok snapshot) s p =
      apply_prepared-Done input a snapshot _ _
        (Held-Quiet h a _ _ (prepare_apply-IsQuiet h a input snapshot s) p)
        (prepare_apply-IsFor h a input snapshot s)
  apply_loaded-Done input a (err e) s p = failed-Settled h _ false e s p.safe

  apply_admitted-Done :
      (input : InstanceSpec) (a : Active h) (s : Session h)
      → Held h a s
      → Done h input (apply_admitted h a input s).1 (apply_admitted h a input s).0
  unfolding apply_admitted
  apply_admitted-Done input a s p =
      apply_loaded-Done input a _ _
        (Held-Quiet h a _ _ (call-IsQuiet h (load input.config_path) s) p)

  apply_matched-Done :
      (input : InstanceSpec) (a : Active h) (expected : RevisionId) (b : Bool) (s : Session h)
      → Held h a s
      → Done h input
          (apply_matched h a input expected b s).1
          (apply_matched h a input expected b s).0
  unfolding apply_matched
  apply_matched-Done input a expected true s p = apply_admitted-Done input a s p
  apply_matched-Done input a expected false s p = failed-Settled h _ false _ s p.safe

  apply_expected-Done :
      (input : InstanceSpec) (a : Active h) (expected : Option RevisionId) (s : Session h)
      → Held h a s
      → Done h input (apply_expected h a input expected s).1 (apply_expected h a input expected s).0
  unfolding apply_expected
  apply_expected-Done input a none s p = apply_admitted-Done input a s p
  apply_expected-Done input a (some e) s p = apply_matched-Done input a e _ s p

  apply_running-Done :
      (input : InstanceSpec) (b : Bool) (a : Active h) (expected : Option RevisionId)
      (s : Session h)
      → Held h a s
      → Done h input
          (apply_running h b a input expected s).1
          (apply_running h b a input expected s).0
  unfolding apply_running
  apply_running-Done input true a expected s p = apply_expected-Done input a expected s p
  apply_running-Done input false a expected s p = failed-Settled h _ false _ s p.safe

  apply_to-Done :
      (input : InstanceSpec) (o : Option (Active h)) (expected : Option RevisionId) (s : Session h)
      → s.current ≡ o
      → Safe h false [] s
      → Done h input (apply_to h o input expected s).1 (apply_to h o input expected s).0
  unfolding apply_to
  apply_to-Done input none expected s c p = failed-Settled h _ false _ s p
  apply_to-Done input (some a) expected s c p =
      apply_running-Done input _ a expected _
        (Held-Quiet h a _ _ (call-IsQuiet h (observe a.instance) s) (record { safe = p; slot = c }))

  pub apply_locked-Done :
      (input : InstanceSpec) (expected : Option RevisionId)
      → Ensures h (Safe h false []) (apply_locked h input expected) (Done h input)
  unfolding apply_locked
  apply_locked-Done input expected s p = apply_to-Done input s.current expected s refl p
