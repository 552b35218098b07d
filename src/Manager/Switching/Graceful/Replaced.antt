-- ===== src/Manager/Switching/Graceful/Replaced.antt =====
-- The end of a graceful switch, once the old core is retired: the new core takes the slot, or is
-- stopped and replaced.
use clash_nyanpasu_service.Shared.{
  Bytes, ◌≡◌, refl, subst, ◌∙◌, inl, Bool, true, false, Option, none, some, [], ◌∷◌,
}
use clash_nyanpasu_service.Failure.{Epoch, Error}
use clash_nyanpasu_service.Control.Execute.{InstanceSpec}
use clash_nyanpasu_service.Manager.Effects.{
  Result, ok, err, is_unconfirmed, EpochPlan, Host, process_id, cleanup,
}
use clash_nyanpasu_service.Manager.Session.{Session, Tx}
use clash_nyanpasu_service.Manager.Session.Quiet.{
  IsQuiet, call-IsQuiet, ◌then◌, publish_instance-IsQuiet,
}
use clash_nyanpasu_service.Manager.Session.Safety.{Safe, Safe-Quiet, Stopped, stop_instance-Stopped}
use clash_nyanpasu_service.Manager.Session.Latching.{Unproven, unproven_lem}
use clash_nyanpasu_service.Manager.Session.Replacing.{Replaced, spawn_replacement-Replaced}
use clash_nyanpasu_service.Manager.Prepare.{PreparedGraceful}
use clash_nyanpasu_service.Manager.InPlace.{probe_healthy-IsQuiet, patch_and_verify-IsQuiet}
use clash_nyanpasu_service.Manager.Launch.Outcomes.{HasSpec}
use clash_nyanpasu_service.Manager.Launch.Settling.{
  Settled, Settled-Quiet, installed-Settled, fail_latched-Settled, fail_cleaned-Settled,
  fail_stop-Settled, Stopped-Pending,
}
use clash_nyanpasu_service.Manager.Switching.{SwitchOutcome, with_switch_durability_result}
use clash_nyanpasu_service.Manager.Switching.Graceful.{
  take_over, unreplaced, warned, replaced, restarted, reconciled, uncommitted, full_commit_error,
  restore_full, committed,
}
use clash_nyanpasu_service.Manager.Session.Replacing.{Unproven-Safe}
use clash_nyanpasu_service.Manager.Prepare.Epochs.{IsFor}
use clash_nyanpasu_service.Manager.Stopping.Vacant.{Stopped-Unproven}
use clash_nyanpasu_service.Manager.Launch.{fail_stop}

module _ (h : Host) where
  open h use {Instance, Document, Patch, epoch_of}

  abbrev pub Switched : InstanceSpec → Result SwitchOutcome → Session h → Type 0
  Switched spec = Settled h (HasSpec h spec)

  -- Which outcome it is does not matter to the slot.
  outcome_any :
      (spec : InstanceSpec) (o : SwitchOutcome) (r : Result SwitchOutcome) (s : Session h)
      → Switched spec (ok o) s
      → Switched spec r s
  outcome_any spec o (ok q) s p = record { safe = p.safe; fills = p.fills }
  outcome_any spec o (err e) s p = record { safe = p.safe; fills = tt }

  -- The instance of a plan that is for a spec and an epoch.
  abbrev pub IsNew : InstanceSpec → Epoch → Instance → EpochPlan Document → Type 0
  IsNew spec epoch i plan = (epoch_of i ≡ plan.revision.epoch) × IsFor h spec epoch plan

  take_over-Switched :
      (spec : InstanceSpec) (o : SwitchOutcome) (plan : EpochPlan Document) (epoch : Epoch)
      (i : Instance) (old : EpochPlan Document) (w : Option Bytes) (s : Session h)
      → IsNew spec epoch i plan
      → Safe h true (i ∷ []) s
      → Switched spec (take_over h o plan epoch i old w s).1 (take_over h o plan epoch i old w s).0
  unfolding take_over
  take_over-Switched spec o plan epoch i old w s (q, (e, f)) p = outcome_any spec o _ _ (
      Settled-Quiet h _ (ok o) _ _ (call-IsQuiet h (cleanup old.revision.epoch) _) (
        installed-Settled h _ i plan o _ q e (
          Safe-Quiet h true _ _ _
            (◌then◌ h (call-IsQuiet h (process_id i) s) (publish_instance-IsQuiet h i _ plan _))
            p)))

  durable-Switched :
      (spec : InstanceSpec) (r : Result SwitchOutcome) (w : Option Bytes) (s : Session h)
      → Switched spec r s
      → Switched spec (with_switch_durability_result r w) s
  unfolding with_switch_durability_result
  durable-Switched spec (ok o) w s p = outcome_any spec o _ s p
  durable-Switched spec (err e) none s p = p
  durable-Switched spec (err e) (some w) s p = record { safe = p.safe; fills = tt }

  warned-Switched :
      (spec : InstanceSpec) (w : Option Bytes) (m : Tx h (Result SwitchOutcome)) (s : Session h)
      → Switched spec (m s).1 (m s).0
      → Switched spec (warned h w m s).1 (warned h w m s).0
  unfolding warned
  warned-Switched spec w m s p = durable-Switched spec _ w _ p

  unreplaced-Switched :
      (spec : InstanceSpec) (epoch : Epoch) (e : Error) (s : Session h)
      → Unproven h true [] epoch e s
      → Switched spec
          (unreplaced h epoch e (is_unconfirmed e) s).1
          (unreplaced h epoch e (is_unconfirmed e) s).0
  unfolding unreplaced
  unreplaced-Switched spec epoch e s p =
      unproven_lem h true (is_unconfirmed e) [] epoch s
        (λ b. Switched spec (unreplaced h epoch e b s).1 (unreplaced h epoch e b s).0) p
        (fail_latched-Settled h _ true epoch e s) (fail_cleaned-Settled h _ true epoch e s)

  replaced-Switched :
      (spec : InstanceSpec) (plan : EpochPlan Document) (epoch : Epoch) (old : EpochPlan Document)
      (w : Option Bytes) (r : Result Instance) (s : Session h)
      → IsFor h spec epoch plan
      → Replaced h true [] plan.revision.epoch r s
      → Switched spec (replaced h plan epoch old w r s).1 (replaced h plan epoch old w r s).0
  unfolding replaced
  replaced-Switched spec plan epoch old w (ok i) s f (q, p) =
      take_over-Switched spec _ plan epoch i old w s (q, f) p
  replaced-Switched spec plan epoch old w (err e) s (g, f) p =
      warned-Switched spec w (unreplaced h epoch e (is_unconfirmed e)) s
        (unreplaced-Switched spec epoch e s (subst (λ x. Unproven h true [] x e s) f p))

  restarted-Switched :
      (spec : InstanceSpec) (plan : EpochPlan Document) (epoch : Epoch) (i : Instance)
      (old : EpochPlan Document) (w : Option Bytes) (r : Result (Unit {0})) (s : Session h)
      → IsNew spec epoch i plan
      → Stopped h true i [] r s
      → Switched spec (restarted h plan epoch old w r s).1 (restarted h plan epoch old w r s).0
  unfolding restarted
  restarted-Switched spec plan epoch i old w (ok u) s (q, f) p =
      replaced-Switched spec plan epoch old w _ _ f (spawn_replacement-Replaced h true [] plan s p)
  restarted-Switched spec plan epoch i old w (err e) s (q, (g, f)) p =
      warned-Switched spec w (fail_stop h epoch e) s
        (fail_stop-Settled h _ true epoch e s (Stopped-Unproven h i epoch e s (q ∙ f) p))

  reconciled-Switched :
      (spec : InstanceSpec) (plan : EpochPlan Document) (epoch : Epoch) (i : Instance)
      (old : EpochPlan Document) (w : Option Bytes) (b : Bool) (s : Session h)
      → IsNew spec epoch i plan
      → Safe h true (i ∷ []) s
      → Switched spec
          (reconciled h plan epoch i old w b s).1
          (reconciled h plan epoch i old w b s).0
  unfolding reconciled
  reconciled-Switched spec plan epoch i old w true s n p =
      take_over-Switched spec _ plan epoch i old w s n p
  reconciled-Switched spec plan epoch i old w false s n p =
      restarted-Switched spec plan epoch i old w _ _ n (stop_instance-Stopped h true i [] s p)

  uncommitted-Switched :
      (spec : InstanceSpec) (epoch : Epoch) (i : Instance) (e : Error) (r : Result (Unit {0}))
      (s : Session h)
      → epoch_of i ≡ epoch
      → Stopped h true i [] r s
      → Switched spec (uncommitted h epoch e r s).1 (uncommitted h epoch e r s).0
  unfolding uncommitted full_commit_error is_unconfirmed
  uncommitted-Switched spec epoch i e (ok u) s q p = fail_stop-Settled h _ true epoch e _ (
      Unproven-Safe h true [] epoch e _
        (Safe-Quiet h true [] _ _ (call-IsQuiet h (cleanup epoch) s) p))
  uncommitted-Switched spec epoch i e (err f) s q p =
      fail_stop-Settled h _ true epoch _ s (inl (refl, Stopped-Pending h true i [] epoch f s q p))

  restore_full-IsQuiet : (i : Instance) (o : Option Patch) → IsQuiet h (restore_full h i o)
  unfolding restore_full
  restore_full-IsQuiet i none s = probe_healthy-IsQuiet h i s
  restore_full-IsQuiet i (some patch) s = patch_and_verify-IsQuiet h i patch s

  pub committed-Switched :
      (spec : InstanceSpec) (g : PreparedGraceful h) (epoch : Epoch) (i : Instance)
      (old : EpochPlan Document) (r : Result (Option Bytes)) (s : Session h)
      → IsNew spec epoch i g.plan
      → Safe h true (i ∷ []) s
      → Switched spec (committed h g epoch i old r s).1 (committed h g epoch i old r s).0
  unfolding committed
  committed-Switched spec g epoch i old (ok w) s n p =
      reconciled-Switched spec g.plan epoch i old w _ _ n
        (Safe-Quiet h true _ _ _ (restore_full-IsQuiet i g.restoration s) p)
  committed-Switched spec g epoch i old (err e) s (q, (k, f)) p =
      uncommitted-Switched spec epoch i e _ _ (q ∙ f) (stop_instance-Stopped h true i [] s p)
