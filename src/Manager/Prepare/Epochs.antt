-- ===== src/Manager/Prepare/Epochs.antt =====
-- The prepare steps are quiet, and a plan is for the epoch that it was asked for.
use clash_nyanpasu_service.Shared.{◌≡◌, refl, Bool, true, false}
use clash_nyanpasu_service.Failure.{Epoch}
use clash_nyanpasu_service.Control.Execute.{InstanceSpec}
use clash_nyanpasu_service.Manager.Effects.{
  Result, ok, err, EpochPlan, Snapshot, ResolvedFeatures, Host,
}
use clash_nyanpasu_service.Manager.Fallible.{◌>>=◌, ◌>>◌, proceed}
use clash_nyanpasu_service.Manager.Session.{Session, Tx, Active}
use clash_nyanpasu_service.Manager.Session.Quiet.{
  IsQuiet, Quiet-refl, call-IsQuiet, bind-IsQuiet, next-IsQuiet, lift-IsQuiet, rely-IsQuiet,
}
use clash_nyanpasu_service.Manager.Prepare.{
  plan_of, launchable, validate_launchable, resolve_features, prepare_launch_with_features,
  prepare_launch, prepare_apply, prepare_graceful,
}

module _ (h : Host) where
  open h use {Document}

  launchable-IsQuiet : (spec : InstanceSpec) (found : Bool) → IsQuiet h (launchable h spec found)
  unfolding launchable
  launchable-IsQuiet spec true = call-IsQuiet h _
  launchable-IsQuiet spec false = Quiet-refl h

  pub validate_launchable-IsQuiet : (spec : InstanceSpec) → IsQuiet h (validate_launchable h spec)
  unfolding validate_launchable
  validate_launchable-IsQuiet spec =
      bind-IsQuiet h _ _ (lift-IsQuiet h _ (call-IsQuiet h _))
        (λ found. launchable-IsQuiet spec found)

  pub resolve_features-IsQuiet : (spec : InstanceSpec) → IsQuiet h (resolve_features h spec)
  unfolding resolve_features
  resolve_features-IsQuiet spec = bind-IsQuiet h _ _ (rely-IsQuiet h _) (λ policy. call-IsQuiet h _)

  pub prepare_launch_with_features-IsQuiet :
      (spec : InstanceSpec) (epoch : Epoch) (snapshot : Snapshot Document)
      (resolved : ResolvedFeatures)
      → IsQuiet h (prepare_launch_with_features h spec epoch snapshot resolved)
  unfolding prepare_launch_with_features
  prepare_launch_with_features-IsQuiet spec epoch snapshot resolved =
      bind-IsQuiet h _ _ (call-IsQuiet h _) λ prepared.
        bind-IsQuiet h _ _ (call-IsQuiet h _) λ staged.
          next-IsQuiet h _ _ (call-IsQuiet h _)
            (bind-IsQuiet h _ _ (call-IsQuiet h _) λ path. Quiet-refl h)

  pub prepare_launch-IsQuiet :
      (spec : InstanceSpec) (epoch : Epoch) (snapshot : Snapshot Document)
      → IsQuiet h (prepare_launch h spec epoch snapshot)
  unfolding prepare_launch
  prepare_launch-IsQuiet spec epoch snapshot =
      next-IsQuiet h _ _ (validate_launchable-IsQuiet spec) (
        bind-IsQuiet h _ _ (resolve_features-IsQuiet spec)
          λ resolved. prepare_launch_with_features-IsQuiet spec epoch snapshot resolved)

  pub prepare_apply-IsQuiet :
      (current : Active h) (input : InstanceSpec) (snapshot : Snapshot Document)
      → IsQuiet h (prepare_apply h current input snapshot)
  unfolding prepare_apply
  prepare_apply-IsQuiet current input snapshot =
      next-IsQuiet h _ _ (validate_launchable-IsQuiet input) (
        bind-IsQuiet h _ _ (resolve_features-IsQuiet input) λ resolved.
          bind-IsQuiet h _ _ (call-IsQuiet h _) λ prepared.
            bind-IsQuiet h _ _ (call-IsQuiet h _)
              λ staged. next-IsQuiet h _ _ (call-IsQuiet h _) (Quiet-refl h))

  pub prepare_graceful-IsQuiet :
      (spec : InstanceSpec) (epoch : Epoch) (snapshot : Snapshot Document)
      (resolved : ResolvedFeatures)
      → IsQuiet h (prepare_graceful h spec epoch snapshot resolved)
  unfolding prepare_graceful
  prepare_graceful-IsQuiet spec epoch snapshot resolved =
      bind-IsQuiet h _ _ (call-IsQuiet h _) λ full.
        bind-IsQuiet h _ _ (call-IsQuiet h _) λ bootstrap. next-IsQuiet h _ _ (rely-IsQuiet h _) (
          bind-IsQuiet h _ _ (rely-IsQuiet h _) λ restoration.
            bind-IsQuiet h _ _ (call-IsQuiet h _) λ full_staged.
              next-IsQuiet h _ _ (call-IsQuiet h _) (
                bind-IsQuiet h _ _ (call-IsQuiet h _) λ bootstrap_staged.
                  next-IsQuiet h _ _ (call-IsQuiet h _)
                    (bind-IsQuiet h _ _ (call-IsQuiet h _) λ path. Quiet-refl h)))

  -- What a result is, if it is one.
  abbrev pub Gives : {A : Type 0} → (A → Type 0) → Result A → Type 0
  Gives good (ok a) = good a
  Gives good (err e) = Unit

  proceed-Gives :
      {A B : Type 0} (good : B → Type 0) (f : A → Tx h (Result B)) (r : Result A) (s : Session h)
      → ((a : A) (t : Session h) → Gives good (f a t).1)
      → Gives good (proceed f r s).1
  unfolding proceed
  proceed-Gives good f (ok a) s k = k a s
  proceed-Gives good f (err e) s k = tt

  bind-Gives :
      {A B : Type 0} (good : B → Type 0) (m : Tx h (Result A)) (f : A → Tx h (Result B))
      (s : Session h)
      → ((a : A) (t : Session h) → Gives good (f a t).1)
      → Gives good ((m >>= f) s).1
  unfolding ◌>>=◌
  bind-Gives good m f s k = proceed-Gives good f _ _ k

  next-Gives :
      {A B : Type 0} (good : B → Type 0) (m : Tx h (Result A)) (f : Tx h (Result B)) (s : Session h)
      → ((t : Session h) → Gives good (f t).1)
      → Gives good ((m >> f) s).1
  unfolding ◌>>◌
  next-Gives good m f s k = proceed-Gives good (λ a. f) _ _ (λ a. k)

  -- A plan that is for a spec and an epoch.
  abbrev pub IsFor : InstanceSpec → Epoch → EpochPlan Document → Type 0
  IsFor spec epoch p = (p.source_spec ≡ spec) × (p.revision.epoch ≡ epoch)

  pub prepare_launch_with_features-IsFor :
      (spec : InstanceSpec) (epoch : Epoch) (snapshot : Snapshot Document)
      (resolved : ResolvedFeatures) (s : Session h)
      → Gives (IsFor spec epoch) (prepare_launch_with_features h spec epoch snapshot resolved s).1
  unfolding prepare_launch_with_features plan_of
  prepare_launch_with_features-IsFor spec epoch snapshot resolved s =
      bind-Gives _ _ _ s λ prepared t.
        bind-Gives _ _ _ t
          λ staged u. next-Gives _ _ _ u λ v. bind-Gives _ _ _ v λ path w. (refl, refl)

  pub prepare_launch-IsFor :
      (spec : InstanceSpec) (epoch : Epoch) (snapshot : Snapshot Document) (s : Session h)
      → Gives (IsFor spec epoch) (prepare_launch h spec epoch snapshot s).1
  unfolding prepare_launch
  prepare_launch-IsFor spec epoch snapshot s = next-Gives _ _ _ s λ t.
      bind-Gives _ _ _ t
        λ resolved u. prepare_launch_with_features-IsFor spec epoch snapshot resolved u

  pub prepare_graceful-IsFor :
      (spec : InstanceSpec) (epoch : Epoch) (snapshot : Snapshot Document)
      (resolved : ResolvedFeatures) (s : Session h)
      → Gives (λ p. IsFor spec epoch p.plan) (prepare_graceful h spec epoch snapshot resolved s).1
  unfolding prepare_graceful plan_of
  prepare_graceful-IsFor spec epoch snapshot resolved s = bind-Gives _ _ _ s λ full t.
      bind-Gives _ _ _ t λ bootstrap u. next-Gives _ _ _ u λ v. bind-Gives _ _ _ v λ restoration w.
        bind-Gives _ _ _ w λ staged a. next-Gives _ _ _ a λ b.
          bind-Gives _ _ _ b
            λ staged c. next-Gives _ _ _ c λ d. bind-Gives _ _ _ d λ path e. (refl, refl)

  pub prepare_apply-IsFor :
      (current : Active h) (input : InstanceSpec) (snapshot : Snapshot Document) (s : Session h)
      → Gives
          (λ p. IsFor input current.plan.revision.epoch p.plan)
          (prepare_apply h current input snapshot s).1
  unfolding prepare_apply plan_of
  prepare_apply-IsFor current input snapshot s = next-Gives _ _ _ s λ t.
      bind-Gives _ _ _ t λ resolved u.
        bind-Gives _ _ _ u
          λ prepared v. bind-Gives _ _ _ v λ staged w. next-Gives _ _ _ w λ a. (refl, refl)
