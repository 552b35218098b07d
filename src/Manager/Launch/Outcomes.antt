-- ===== src/Manager/Launch/Outcomes.antt =====
-- What the start of a core leaves: nothing is lost, and a success fills the slot with the plan.
use clash_nyanpasu_service.Shared.{◌≡◌, refl, ◌∙◌, ap, true, [], ◌∷◌}
use clash_nyanpasu_service.Failure.{Epoch, Error}
use clash_nyanpasu_service.Control.Execute.{InstanceSpec}
use clash_nyanpasu_service.Manager.Effects.{
  Result, ok, err, EpochPlan, Snapshot, Host, process_id, wait_ready, load,
}
use clash_nyanpasu_service.Manager.Session.{Active, Session}
use clash_nyanpasu_service.Manager.Session.Quiet.{
  call-IsQuiet, ◌then◌, publish-IsQuiet, publish_instance-IsQuiet, next_epoch-IsQuiet,
}
use clash_nyanpasu_service.Manager.Session.Safety.{
  Safe, Safe-Quiet, Ensures, Launched, launch-Launched, Stopped, stop_instance-Stopped,
}
use clash_nyanpasu_service.Manager.Prepare.Epochs.{
  IsFor, Gives, prepare_launch-IsQuiet, prepare_launch-IsFor,
}
use clash_nyanpasu_service.Manager.Launch.{
  reject_initial, ready_initial, spawned_initial, start_prepared, start_planned, start_loaded,
  start_locked,
}
use clash_nyanpasu_service.Manager.Launch.Settling.{
  Settled, Stopped-Pending, fail_cleaned-Settled, fail_latched-Settled, fail_published-Settled,
  installed-Settled, weaken-Settled,
}

module _ (h : Host) where
  open h use {Instance, Document, epoch_of}

  abbrev pub HasPlan : EpochPlan Document → Unit {0} → Active h → Type 0
  HasPlan plan u x = x.plan ≡ plan

  reject_initial-Settled :
      (plan : EpochPlan Document) (i : Instance) (e : Error) (r : Result (Unit {0})) (s : Session h)
      → epoch_of i ≡ plan.revision.epoch
      → Stopped h true i [] r s
      → Settled h (HasPlan plan) (reject_initial h plan e r s).1 (reject_initial h plan e r s).0
  unfolding reject_initial
  reject_initial-Settled plan i e (ok u) s q p = fail_cleaned-Settled h _ true _ e s p
  reject_initial-Settled plan i e (err f) s q p =
      fail_latched-Settled h _ true _ _ s (Stopped-Pending h true i [] _ f s q p)

  ready_initial-Settled :
      (plan : EpochPlan Document) (i : Instance) (r : Result (Unit {0})) (s : Session h)
      → epoch_of i ≡ plan.revision.epoch
      → Safe h true (i ∷ []) s
      → Settled h (HasPlan plan) (ready_initial h plan i r s).1 (ready_initial h plan i r s).0
  unfolding ready_initial
  ready_initial-Settled plan i (ok u) s q p =
      installed-Settled h (HasPlan plan) i plan tt _ q refl (
        Safe-Quiet h true _ _ _
          (◌then◌ h (call-IsQuiet h (process_id i) s) (publish_instance-IsQuiet h i _ plan _)) p)
  ready_initial-Settled plan i (err e) s q p =
      reject_initial-Settled plan i e _ _ q (stop_instance-Stopped h true i [] s p)

  spawned_initial-Settled :
      (plan : EpochPlan Document) (r : Result Instance) (s : Session h)
      → Launched h true [] plan.revision.epoch r s
      → Settled h (HasPlan plan) (spawned_initial h plan r s).1 (spawned_initial h plan r s).0
  unfolding spawned_initial
  spawned_initial-Settled plan (ok i) s (q, p) =
      ready_initial-Settled plan i _ _ q
        (Safe-Quiet h true _ _ _ (call-IsQuiet h (wait_ready i) s) p)
  spawned_initial-Settled plan (err e) s p = fail_cleaned-Settled h _ true _ e s p

  pub start_prepared-Settled :
      (plan : EpochPlan Document)
      → Ensures h (Safe h true []) (start_prepared h plan) (Settled h (HasPlan plan))
  unfolding start_prepared
  start_prepared-Settled plan s p =
      spawned_initial-Settled plan _ _
        (launch-Launched h true [] plan _ (Safe-Quiet h true [] _ _ (publish-IsQuiet h _ _ s) p))

  abbrev pub HasSpec : {A : Type 0} → InstanceSpec → A → Active h → Type 0
  HasSpec spec u x = x.plan.source_spec ≡ spec

  start_planned-Settled :
      (spec : InstanceSpec) (epoch : Epoch) (r : Result (EpochPlan Document)) (s : Session h)
      → Gives h (IsFor h spec epoch) r
      → Safe h true [] s
      → Settled h (HasSpec spec) (start_planned h epoch r s).1 (start_planned h epoch r s).0
  unfolding start_planned
  start_planned-Settled spec epoch (ok plan) s (e, f) p =
      weaken-Settled h _ (HasPlan plan) _ _ (λ a x g. ap (λ q. q.source_spec) g ∙ e)
        (start_prepared-Settled plan s p)
  start_planned-Settled spec epoch (err e) s g p = fail_cleaned-Settled h _ true epoch e s p

  start_loaded-Settled :
      (spec : InstanceSpec) (epoch : Epoch) (r : Result (Snapshot Document)) (s : Session h)
      → Safe h true [] s
      → Settled h (HasSpec spec) (start_loaded h spec epoch r s).1 (start_loaded h spec epoch r s).0
  unfolding start_loaded
  start_loaded-Settled spec epoch (ok snapshot) s p =
      start_planned-Settled spec epoch _ _ (prepare_launch-IsFor h spec epoch snapshot s)
        (Safe-Quiet h true [] _ _ (prepare_launch-IsQuiet h spec epoch snapshot s) p)
  start_loaded-Settled spec epoch (err e) s p = fail_published-Settled h _ true e s p

  pub start_locked-Settled :
      (spec : InstanceSpec)
      → Ensures h (Safe h true []) (start_locked h spec) (Settled h (HasSpec spec))
  unfolding start_locked
  start_locked-Settled spec s p = start_loaded-Settled spec _ _ _ (
      Safe-Quiet h true [] _ _
        (◌then◌ h (next_epoch-IsQuiet h s) (call-IsQuiet h (load spec.config_path) _)) p)
