-- ===== src/Manager/Switching/Graceful/Overlap.antt =====
-- The overlap of a graceful switch: both cores are up, and each is retired, kept, or quarantined.
use clash_nyanpasu_service.Shared.{◌≡◌, ◌≢◌, refl, ◌∙◌, ◌⊎◌, inl, inr, true, false, some, [], ◌∷◌}
use clash_nyanpasu_service.Failure.{Epoch, Error}
use clash_nyanpasu_service.Control.Execute.{InstanceSpec}
use clash_nyanpasu_service.Manager.Effects.{
  Result, ok, err, is_unconfirmed, Snapshot, ResolvedFeatures, Host, wait_ready, commit_replace,
  cleanup,
}
use clash_nyanpasu_service.Manager.Session.{
  Active, Session, Retired, nothing, retired, unproven, stop_instance,
}
use clash_nyanpasu_service.Manager.Session.Quiet.{call-IsQuiet, ◌then◌, next_epoch-IsQuiet}
use clash_nyanpasu_service.Manager.Session.Safety.{
  Safe, Safe-Quiet, Safe-also, Safe-swap, Ensures, Launched, launch-Launched, launch_current,
  Stopped, stop_instance-Stopped,
}
use clash_nyanpasu_service.Manager.Session.Latching.{
  Unproven, unproven_lem, quarantine_epoch-Pending,
}
use clash_nyanpasu_service.Manager.Session.Retiring.{
  AfterRetire, retire_current-AfterRetire, Held, Held-Quiet, retire_current-Retired,
}
use clash_nyanpasu_service.Manager.Prepare.{PreparedGraceful}
use clash_nyanpasu_service.Manager.Prepare.Epochs.{
  Gives, IsFor, prepare_graceful-IsQuiet, prepare_graceful-IsFor,
}
use clash_nyanpasu_service.Manager.Launch.Settling.{
  fail_latched-Settled, fail_stop-Settled, Stopped-Pending,
}
use clash_nyanpasu_service.Manager.Apply.Compensate.Served.{Unproven-Quiet}
use clash_nyanpasu_service.Manager.Switching.Outcomes.{
  fail_retained-Settled, publish_switching-IsQuiet,
}
use clash_nyanpasu_service.Manager.Switching.Graceful.Replaced.{Switched, IsNew, committed-Switched}
use clash_nyanpasu_service.Manager.Switching.Graceful.{
  record_uncertain, old_unstopped, old_retired, reject_bootstrap, bootstrap_ready,
  bootstrap_spawned, bootstrap_prepared, graceful_switch,
}

module _ (h : Host) where
  open h use {Instance, Document, epoch_of}

  -- What stopping the new core leaves of an old one that may live.
  abbrev Left : Instance → Epoch → Error → Result (Unit {0}) → Session h → Type 0
  Left i before e (ok u) t = Unproven h true [] before e t
  Left i before e (err f) t = Unproven h true (i ∷ []) before e t

  dead-Left :
      (i : Instance) (before : Epoch) (e : Error) (r : Result (Unit {0})) (t : Session h)
      → Stopped h true i [] r t
      → (is_unconfirmed e ≡ true) ⊎ (is_unconfirmed e ≡ false)
      → Left i before e r t
  dead-Left i before e (ok u) t p (inl k) = inl (k, inl p)
  dead-Left i before e (ok u) t p (inr k) = inr (k, p)
  dead-Left i before e (err f) t (inl (c, p)) (inl k) = inl (k, inl p)
  dead-Left i before e (err f) t (inl (c, p)) (inr k) = inr (k, p)
  dead-Left i before e (err f) t (inr (c, p)) (inl k) = inl (k, inl (Safe-also h true i [] t p))
  dead-Left i before e (err f) t (inr (c, p)) (inr k) = inr (k, Safe-also h true i [] t p)

  alive-Left :
      (i j : Instance) (before : Epoch) (e : Error) (r : Result (Unit {0})) (t : Session h)
      → Stopped h true i (j ∷ []) r t
      → is_unconfirmed e ≡ true
      → epoch_of j ≡ before
      → Left i before e r t
  alive-Left i j before e (ok u) t p k q = inl (k, inr (j, q, p))
  alive-Left i j before e (err f) t (inl (c, p)) k q =
      inl (k, inr (j, q, Safe-swap h true i j [] t p))
  alive-Left i j before e (err f) t (inr (c, p)) k q =
      inl (k, inr (j, q, Safe-swap h true i j [] t (Safe-also h true i (j ∷ []) t p)))

  stop_new-Left :
      (i : Instance) (before : Epoch) (e : Error) (s : Session h)
      → Unproven h true (i ∷ []) before e s
      → Left i before e (stop_instance h i s).1 (stop_instance h i s).0
  stop_new-Left i before e s (inl (k, inl p)) =
      dead-Left i before e _ _ (stop_instance-Stopped h true i [] s p) (inl k)
  stop_new-Left i before e s (inl (k, inr (j, q, p))) =
      alive-Left i j before e _ _
        (stop_instance-Stopped h true i (j ∷ []) s (Safe-swap h true j i [] s p)) k q
  stop_new-Left i before e s (inr (k, p)) =
      dead-Left i before e _ _ (stop_instance-Stopped h true i [] s p) (inr k)

  record_uncertain-Safe :
      (i : Instance) (before : Epoch) (e : Error) (s : Session h)
      → Unproven h true (i ∷ []) before e s
      → Safe h true (i ∷ []) (record_uncertain h (is_unconfirmed e) before e s).0
  unfolding record_uncertain
  record_uncertain-Safe i before e s p =
      unproven_lem h true (is_unconfirmed e) (i ∷ []) before s
        (λ b. Safe h true (i ∷ []) (record_uncertain h b before e s).0) p
        (quarantine_epoch-Pending h true (i ∷ []) before _ s) (λ q. q)

  old_unstopped-Switched :
      (spec : InstanceSpec) (epoch before : Epoch) (i : Instance) (e : Error)
      (r : Result (Unit {0})) (s : Session h)
      → epoch_of i ≡ epoch
      → Left i before e r s
      → Switched h spec
          (old_unstopped h epoch before e r s).1
          (old_unstopped h epoch before e r s).0
  unfolding old_unstopped
  old_unstopped-Switched spec epoch before i e (ok u) s q p =
      fail_stop-Settled h _ true before e _
        (Unproven-Quiet h [] before e _ _ (call-IsQuiet h (cleanup epoch) s) p)
  old_unstopped-Switched spec epoch before i e (err f) s q p =
      fail_latched-Settled h _ true epoch _ _ (inr (i, q, record_uncertain-Safe i before e s p))

  old_retired-Switched :
      (spec : InstanceSpec) (g : PreparedGraceful h) (epoch : Epoch) (i : Instance)
      (r : Retired Document) (s : Session h)
      → r ≢ nothing
      → IsNew h spec epoch i g.plan
      → AfterRetire h (i ∷ []) r s
      → Switched h spec (old_retired h g epoch i r s).1 (old_retired h g epoch i r s).0
  unfolding old_retired
  old_retired-Switched spec g epoch i nothing s c n p = absurd (c refl)
  old_retired-Switched spec g epoch i (retired old) s c n p =
      committed-Switched h spec g epoch i old _ _ n
        (Safe-Quiet h true _ _ _ (call-IsQuiet h (commit_replace g.full_staged epoch) s) p)
  old_retired-Switched spec g epoch i (unproven before e) s c (q, (k, f)) p =
      old_unstopped-Switched spec epoch before i e _ _ (q ∙ f) (stop_new-Left i before e s p)

  reject_bootstrap-Switched :
      (spec : InstanceSpec) (epoch : Epoch) (i : Instance) (e : Error) (r : Result (Unit {0}))
      (s : Session h)
      → epoch_of i ≡ epoch
      → Stopped h false i [] r s
      → Switched h spec (reject_bootstrap h epoch e r s).1 (reject_bootstrap h epoch e r s).0
  unfolding reject_bootstrap
  reject_bootstrap-Switched spec epoch i e (ok u) s q p =
      fail_retained-Settled h _ false epoch e s p
  reject_bootstrap-Switched spec epoch i e (err f) s q p =
      fail_latched-Settled h _ false epoch _ s (Stopped-Pending h false i [] epoch f s q p)

  bootstrap_ready-Switched :
      (spec : InstanceSpec) (g : PreparedGraceful h) (epoch : Epoch) (i : Instance) (a : Active h)
      (r : Result (Unit {0})) (s : Session h)
      → s.current ≡ some a
      → IsNew h spec epoch i g.plan
      → Safe h false (i ∷ []) s
      → Switched h spec (bootstrap_ready h g epoch i r s).1 (bootstrap_ready h g epoch i r s).0
  unfolding bootstrap_ready
  bootstrap_ready-Switched spec g epoch i a (ok u) s c n p =
      old_retired-Switched spec g epoch i _ _ (retire_current-Retired h a s c) n
        (retire_current-AfterRetire h false (i ∷ []) s p)
  bootstrap_ready-Switched spec g epoch i a (err e) s c (q, (k, f)) p =
      reject_bootstrap-Switched spec epoch i e _ _ (q ∙ f) (stop_instance-Stopped h false i [] s p)

  bootstrap_spawned-Switched :
      (spec : InstanceSpec) (g : PreparedGraceful h) (epoch : Epoch) (a : Active h)
      (r : Result Instance) (s : Session h)
      → s.current ≡ some a
      → IsFor h spec epoch g.plan
      → Launched h false [] g.plan.revision.epoch r s
      → Switched h spec (bootstrap_spawned h g epoch r s).1 (bootstrap_spawned h g epoch r s).0
  unfolding bootstrap_spawned
  bootstrap_spawned-Switched spec g epoch a (ok i) s c f (q, p) =
      let quiet = call-IsQuiet h (wait_ready i) s in
      bootstrap_ready-Switched spec g epoch i a _ _ (quiet.same_current ∙ c) (q, f)
        (Safe-Quiet h false _ _ _ quiet p)
  bootstrap_spawned-Switched spec g epoch a (err e) s c f p =
      fail_retained-Settled h _ false epoch e s p

  bootstrap_prepared-Switched :
      (spec : InstanceSpec) (epoch : Epoch) (a : Active h) (r : Result (PreparedGraceful h))
      (s : Session h)
      → Gives h (λ g. IsFor h spec epoch g.plan) r
      → Held h a s
      → Switched h spec (bootstrap_prepared h epoch r s).1 (bootstrap_prepared h epoch r s).0
  unfolding bootstrap_prepared
  bootstrap_prepared-Switched spec epoch a (ok g) s f p =
      let q = Held-Quiet h a _ _ (publish_switching-IsQuiet h epoch g.plan s) p in
      bootstrap_spawned-Switched spec g epoch a _ _ (launch_current h g.plan _ ∙ q.slot) f
        (launch-Launched h false [] g.plan _ q.safe)
  bootstrap_prepared-Switched spec epoch a (err e) s f p =
      fail_retained-Settled h _ false epoch e s p.safe

  pub graceful_switch-Switched :
      (spec : InstanceSpec) (snapshot : Snapshot Document) (resolved : ResolvedFeatures)
      (a : Active h)
      → Ensures h (Held h a) (graceful_switch h spec snapshot resolved) (Switched h spec)
  unfolding graceful_switch
  graceful_switch-Switched spec snapshot resolved a s p =
      bootstrap_prepared-Switched spec _ a _ _ (prepare_graceful-IsFor h spec _ snapshot resolved _)
        (Held-Quiet h a _ _
          (◌then◌ h (next_epoch-IsQuiet h s)
            (prepare_graceful-IsQuiet h spec _ snapshot resolved _))
          p)
