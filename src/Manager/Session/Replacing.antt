-- ===== src/Manager/Session/Replacing.antt =====
-- `spawn_replacement`: a replacement is up and held, or what may be left of it is an unconfirmed epoch.
use clash_nyanpasu_service.Shared.{◌≡◌, refl, inl, inr, Bool, List, ◌∷◌, Bool-cases}
use clash_nyanpasu_service.Failure.{Epoch, Error}
use clash_nyanpasu_service.Manager.Effects.{
  Result, ok, err, EpochPlan, Host, is_unconfirmed, wait_ready,
}
use clash_nyanpasu_service.Manager.Session.{
  Session, rejected, await_ready, await_spawned, spawn_replacement,
}
use clash_nyanpasu_service.Manager.Session.Quiet.{call-IsQuiet}
use clash_nyanpasu_service.Manager.Session.Safety.{
  Safe, Ensures, Safe-Quiet, Launched, launch-Launched, Stopped, stop_instance-Stopped,
}
use clash_nyanpasu_service.Manager.Session.Latching.{Unproven}

module _ (h : Host) where
  open h use {Instance, Document, MayLive, epoch_of}

  -- A replacement that is given is up and held; one that is not may be pending.
  abbrev pub Replaced : Bool → List Instance → Epoch → Result Instance → Session h → Type 0
  Replaced v js epoch (ok i) s = (epoch_of i ≡ epoch) × Safe h v (i ∷ js) s
  Replaced v js epoch (err e) s = Unproven h v js epoch e s

  pub Unproven-Safe :
      (v : Bool) (js : List Instance) (epoch : Epoch) (e : Error) (s : Session h)
      → Safe h v js s
      → Unproven h v js epoch e s
  Unproven-Safe v js epoch e s p = elim (Bool-cases (is_unconfirmed e)) [
    | inl t ↦ inl (t, inl p)
    | inr t ↦ inr (t, p)
  ]

  rejected-Replaced :
      (v : Bool) (js : List Instance) (i : Instance) (epoch : Epoch) (e : Error)
      (r : Result (Unit {0})) (s : Session h)
      → epoch_of i ≡ epoch
      → Stopped h v i js r s
      → Replaced v js epoch (rejected h i e r) s
  unfolding rejected is_unconfirmed
  rejected-Replaced v js i epoch e (ok u) s q p = Unproven-Safe v js epoch e s p
  rejected-Replaced v js i epoch e (err f) s q (inl (t, p)) = inl (refl, inr (i, q, p))
  rejected-Replaced v js i epoch e (err f) s q (inr (t, p)) = inl (refl, inl p)

  await_ready-Replaced :
      (v : Bool) (js : List Instance) (i : Instance) (epoch : Epoch) (r : Result (Unit {0}))
      (s : Session h)
      → epoch_of i ≡ epoch
      → Safe h v (i ∷ js) s
      → Replaced v js epoch (await_ready h i r s).1 (await_ready h i r s).0
  unfolding await_ready
  await_ready-Replaced v js i epoch (ok u) s q p = (q, p)
  await_ready-Replaced v js i epoch (err e) s q p =
      rejected-Replaced v js i epoch e _ _ q (stop_instance-Stopped h v i js s p)

  await_spawned-Replaced :
      (v : Bool) (js : List Instance) (epoch : Epoch) (r : Result Instance) (s : Session h)
      → Launched h v js epoch r s
      → Replaced v js epoch (await_spawned h r s).1 (await_spawned h r s).0
  unfolding await_spawned
  await_spawned-Replaced v js epoch (err e) s p = Unproven-Safe v js epoch e s p
  await_spawned-Replaced v js epoch (ok i) s (q, p) =
      await_ready-Replaced v js i epoch _ _ q
        (Safe-Quiet h v (i ∷ js) _ _ (call-IsQuiet h (wait_ready i) s) p)

  pub spawn_replacement-Replaced :
      (v : Bool) (js : List Instance) (plan : EpochPlan Document)
      → Ensures h (Safe h v js) (spawn_replacement h plan) (Replaced v js plan.revision.epoch)
  unfolding spawn_replacement
  spawn_replacement-Replaced v js plan s p =
      await_spawned-Replaced v js plan.revision.epoch _ _ (launch-Launched h v js plan s p)
