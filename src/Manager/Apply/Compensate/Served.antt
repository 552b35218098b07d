-- ===== src/Manager/Apply/Compensate/Served.antt =====
-- What an outcome of an apply tells of the slot.
use clash_nyanpasu_service.Shared.{
  Bytes, ◌≡◌, ◌⊎◌, inl, inr, Bool, true, false, Option, none, some, List, [], ◌∷◌,
}
use clash_nyanpasu_service.Failure.{Epoch, Error}
use clash_nyanpasu_service.Control.Command.{ApplyOutcome, ConfigRevision}
use clash_nyanpasu_service.Control.Execute.{InstanceSpec}
use clash_nyanpasu_service.Manager.Effects.{Result, ok, err, EpochPlan, Host, process_id}
use clash_nyanpasu_service.Manager.Session.{Active, Session}
use clash_nyanpasu_service.Manager.Session.Quiet.{Quiet, call-IsQuiet, publish_instance-IsQuiet}
use clash_nyanpasu_service.Manager.Session.Safety.{Safe, Safe-Quiet}
use clash_nyanpasu_service.Manager.Session.Latching.{Unproven}
use clash_nyanpasu_service.Manager.Launch.Settling.{Settled, Settled-Quiet, installed-Settled}
use clash_nyanpasu_service.Manager.Apply.Compensate.{
  with_durability_warning, with_durability_result, install_running,
}

unfoldable pub revision_of : ApplyOutcome → ConfigRevision
revision_of (ApplyOutcome.started r) = r
revision_of (ApplyOutcome.noop r) = r
revision_of (ApplyOutcome.patched r) = r
revision_of (ApplyOutcome.reloaded r) = r
revision_of (ApplyOutcome.restarted r) = r
revision_of (ApplyOutcome.switched r) = r
revision_of (ApplyOutcome.rolled_back r failed) = r
revision_of (ApplyOutcome.durability_uncertain outcome warning) = revision_of outcome

unfoldable pub is_rolled_back : ApplyOutcome → Bool
is_rolled_back (ApplyOutcome.rolled_back r failed) = true
is_rolled_back (ApplyOutcome.durability_uncertain outcome warning) = is_rolled_back outcome
is_rolled_back _ = false

module _ (h : Host) where
  open h use {Instance, Document, epoch_of}

  -- An outcome tells the truth: its revision is the slot's, and the slot's spec is the one that was
  -- asked for, but after a rollback.
  pub record Served (input : InstanceSpec) (o : ApplyOutcome) (x : Active h) : Type 0 where
    pub same_revision : revision_of o ≡ x.plan.revision
    pub same_spec : (is_rolled_back o ≡ true) ⊎ (x.plan.source_spec ≡ input)

  abbrev pub Done : InstanceSpec → Result ApplyOutcome → Session h → Type 0
  Done input = Settled h (Served input)

  warned-Served :
      (input : InstanceSpec) (o : ApplyOutcome) (warning : Option Bytes) (x : Active h)
      → Served input o x
      → Served input (with_durability_warning o warning) x
  unfolding with_durability_warning revision_of is_rolled_back
  warned-Served input o none x p = p
  warned-Served input o (some w) x p = record {
    same_revision = p.same_revision;
    same_spec = p.same_spec;
  }

  pub warned-Done :
      (input : InstanceSpec) (o : ApplyOutcome) (warning : Option Bytes) (s : Session h)
      → Done input (ok o) s
      → Done input (ok (with_durability_warning o warning)) s
  warned-Done input o warning s p =
      let (x, c, g) = p.fills in
      record { safe = p.safe; fills = (x, c, warned-Served input o warning x g) }

  pub durable-Done :
      (input : InstanceSpec) (r : Result ApplyOutcome) (warning : Option Bytes) (s : Session h)
      → Done input r s
      → Done input (with_durability_result r warning) s
  unfolding with_durability_result
  durable-Done input (ok o) warning s p = warned-Done input o warning s p
  durable-Done input (err e) none s p = p
  durable-Done input (err e) (some w) s p = record { safe = p.safe; fills = tt }

  pub install_running-Done :
      (input : InstanceSpec) (o : ApplyOutcome) (i : Instance) (plan : EpochPlan Document)
      (s : Session h)
      → epoch_of i ≡ plan.revision.epoch
      → Served input o (record { instance = i; plan = plan })
      → Safe h true (i ∷ []) s
      → Done input (ok o) (install_running h i plan s).0
  unfolding install_running
  install_running-Done input o i plan s q g p =
      Settled-Quiet h _ _ _ _ (publish_instance-IsQuiet h i _ plan _) (
        installed-Settled h _ i plan o _ q g
          (Safe-Quiet h true _ _ _ (call-IsQuiet h (process_id i) s) p))

  -- `unproven` epochs stay so over a quiet stretch.
  pub Unproven-Quiet :
      (js : List Instance) (epoch : Epoch) (e : Error) (s t : Session h)
      → Quiet h s t
      → Unproven h true js epoch e s
      → Unproven h true js epoch e t
  Unproven-Quiet js epoch e s t q (inl (u, inl p)) = inl (u, inl (Safe-Quiet h true js s t q p))
  Unproven-Quiet js epoch e s t q (inl (u, inr (i, f, p))) =
      inl (u, inr (i, f, Safe-Quiet h true _ s t q p))
  Unproven-Quiet js epoch e s t q (inr (u, p)) = inr (u, Safe-Quiet h true js s t q p)
