-- ===== src/Manager/Switching/Outcomes.antt =====
-- What a hard switch leaves: no core is lost, and a success fills the slot with the spec asked for.
use clash_nyanpasu_service.Shared.{◌≡◌, Bool, true, false, Option, none, some, []}
use clash_nyanpasu_service.Failure.{Epoch, Error}
use clash_nyanpasu_service.Control.Execute.{InstanceSpec}
use clash_nyanpasu_service.Manager.Effects.{
  Result, ok, err, EpochPlan, Snapshot, ResolvedFeatures, Host, observe, cleanup,
}
use clash_nyanpasu_service.Manager.Session.{Active, Session, Retired, nothing, retired, unproven}
use clash_nyanpasu_service.Manager.Session.Quiet.{
  IsQuiet, Quiet-refl, call-IsQuiet, ◌then◌, publish-IsQuiet, publish_instance-IsQuiet,
  next_epoch-IsQuiet,
}
use clash_nyanpasu_service.Manager.Session.Safety.{Safe, Safe-Quiet, Ensures}
use clash_nyanpasu_service.Manager.Session.Retiring.{AfterRetire, retire_current-AfterRetire}
use clash_nyanpasu_service.Manager.Prepare.Epochs.{
  IsFor, Gives, prepare_launch_with_features-IsQuiet, prepare_launch_with_features-IsFor,
}
use clash_nyanpasu_service.Manager.Launch.Outcomes.{HasPlan, HasSpec, start_prepared-Settled}
use clash_nyanpasu_service.Manager.Launch.Settling.{
  Settled, weaken-Settled, failed-Settled, fail_published-Settled, fail_stop-Settled,
}
use clash_nyanpasu_service.Manager.Apply.Compensate.Served.{Unproven-Quiet}
use clash_nyanpasu_service.Manager.Switching.{
  republish, republish_retained, fail_retained, publish_switching, hard_cleaned, hard_retired,
  hard_planned, hard_switch,
}

module _ (h : Host) where
  open h use {Instance, Document}

  republish-IsQuiet : (a : Option (Active h)) → IsQuiet h (republish h a)
  unfolding republish
  republish-IsQuiet none s = Quiet-refl h s
  republish-IsQuiet (some a) s =
      ◌then◌ h (call-IsQuiet h (observe a.instance) s)
        (publish_instance-IsQuiet h a.instance _ a.plan _)

  pub republish_retained-IsQuiet : IsQuiet h (republish_retained h)
  unfolding republish_retained
  republish_retained-IsQuiet s = republish-IsQuiet s.current s

  pub fail_retained-Settled :
      {A : Type 0} (good : A → Active h → Type 0) (v : Bool) (epoch : Epoch) (e : Error)
      (s : Session h)
      → Safe h v [] s
      → Settled h good (fail_retained h {A = A} epoch e s).1 (fail_retained h {A = A} epoch e s).0
  unfolding fail_retained
  fail_retained-Settled good v epoch e s p = failed-Settled h good v e _ (
      Safe-Quiet h v [] _ _
        (◌then◌ h (call-IsQuiet h (cleanup epoch) s) (republish_retained-IsQuiet _)) p)

  pub publish_switching-IsQuiet :
      (epoch : Epoch) (plan : EpochPlan Document) → IsQuiet h (publish_switching h epoch plan)
  unfolding publish_switching
  publish_switching-IsQuiet epoch plan s = publish-IsQuiet h _ _ s

  abbrev Started : InstanceSpec → Result (Unit {0}) → Session h → Type 0
  Started spec = Settled h (HasSpec h spec)

  hard_cleaned-Settled :
      (spec : InstanceSpec) (plan : EpochPlan Document) (r : Result (Unit {0})) (s : Session h)
      → plan.source_spec ≡ spec
      → Safe h true [] s
      → Started spec (hard_cleaned h plan r s).1 (hard_cleaned h plan r s).0
  unfolding hard_cleaned
  hard_cleaned-Settled spec plan (ok u) s e p =
      weaken-Settled h _ (HasPlan h plan) _ _ (λ a x g. cc (g, e))
        (start_prepared-Settled h plan s p)
  hard_cleaned-Settled spec plan (err f) s e p = fail_published-Settled h _ true f s p

  hard_retired-Settled :
      (spec : InstanceSpec) (epoch : Epoch) (plan : EpochPlan Document) (r : Retired Document)
      (s : Session h)
      → plan.source_spec ≡ spec
      → AfterRetire h [] r s
      → Started spec (hard_retired h epoch plan r s).1 (hard_retired h epoch plan r s).0
  unfolding hard_retired
  hard_retired-Settled spec epoch plan nothing s e p = failed-Settled h _ true _ s p
  hard_retired-Settled spec epoch plan (retired old) s e p =
      hard_cleaned-Settled spec plan _ _ e
        (Safe-Quiet h true [] _ _ (call-IsQuiet h (cleanup old.revision.epoch) s) p)
  hard_retired-Settled spec epoch plan (unproven before f) s e p =
      fail_stop-Settled h _ true before f _
        (Unproven-Quiet h [] before f _ _ (call-IsQuiet h (cleanup epoch) s) p)

  hard_planned-Settled :
      (spec : InstanceSpec) (epoch : Epoch) (r : Result (EpochPlan Document)) (s : Session h)
      → Gives h (IsFor h spec epoch) r
      → Safe h false [] s
      → Started spec (hard_planned h epoch r s).1 (hard_planned h epoch r s).0
  unfolding hard_planned
  hard_planned-Settled spec epoch (ok plan) s (e, f) p =
      hard_retired-Settled spec epoch plan _ _ e (
        retire_current-AfterRetire h false [] _
          (Safe-Quiet h false [] _ _ (publish_switching-IsQuiet epoch plan s) p))
  hard_planned-Settled spec epoch (err e) s g p = fail_retained-Settled _ false epoch e s p

  pub hard_switch-Settled :
      (spec : InstanceSpec) (snapshot : Snapshot Document) (resolved : ResolvedFeatures)
      → Ensures h (Safe h false []) (hard_switch h spec snapshot resolved) (Started spec)
  unfolding hard_switch
  hard_switch-Settled spec snapshot resolved s p =
      hard_planned-Settled spec _ _ _
        (prepare_launch_with_features-IsFor h spec _ snapshot resolved _)
        (Safe-Quiet h false [] _ _
          (◌then◌ h (next_epoch-IsQuiet h s)
            (prepare_launch_with_features-IsQuiet h spec _ snapshot resolved _))
          p)
