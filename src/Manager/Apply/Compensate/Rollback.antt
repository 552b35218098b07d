-- ===== src/Manager/Apply/Compensate/Rollback.antt =====
-- What the two compensations leave: no core is lost, and an outcome tells the plan that is in the slot.
use clash_nyanpasu_service.Shared.{Bytes, ◌≡◌, refl, inl, inr, true, false, Option, []}
use clash_nyanpasu_service.Failure.{Epoch, Error}
use clash_nyanpasu_service.Control.Execute.{InstanceSpec}
use clash_nyanpasu_service.Manager.Effects.{
  Result, ok, err, is_unconfirmed, EpochPlan, Snapshot, Host, restore, remove_backup, cleanup,
}
use clash_nyanpasu_service.Manager.Session.{Session, Tx, Retired, nothing, retired, unproven}
use clash_nyanpasu_service.Manager.Session.Quiet.{
  IsQuiet, Quiet-refl, call-IsQuiet, ◌then◌, publish-IsQuiet, next_epoch-IsQuiet,
}
use clash_nyanpasu_service.Manager.Session.Safety.{Safe, Safe-Quiet, Ensures}
use clash_nyanpasu_service.Manager.Session.Latching.{Unproven, unproven_lem}
use clash_nyanpasu_service.Manager.Session.Retiring.{AfterRetire, retire_current-AfterRetire}
use clash_nyanpasu_service.Manager.Session.Replacing.{Replaced, spawn_replacement-Replaced}
use clash_nyanpasu_service.Manager.Prepare.Epochs.{
  IsFor, Gives, prepare_launch-IsQuiet, prepare_launch-IsFor,
}
use clash_nyanpasu_service.Manager.Launch.Settling.{
  Settled-Quiet, failed-Settled, fail_published-Settled, fail_latched-Settled,
}
use clash_nyanpasu_service.Manager.Apply.Compensate.{
  unproven_apply, rollback_failed, rolled_back, roll_back, tidy_backup, restart_restored,
  restart_failed, restart_replaced, restart_retired, restart_with_compensation, switch_failed,
  switch_replaced, switch_retired, switch_planned, switch_with_compensation,
}
use clash_nyanpasu_service.Manager.Apply.Compensate.Served.{
  revision_of, is_rolled_back, Done, Unproven-Quiet, durable-Done, install_running-Done,
}

module _ (h : Host) where
  open h use {Instance, Document, epoch_of}

  rollback_failed-Done :
      (input : InstanceSpec) (detail : Bytes) (old : EpochPlan Document) (text : Bytes) (e : Error)
      (s : Session h)
      → Unproven h true [] old.revision.epoch e s
      → Done h input
          (rollback_failed h detail old text e (is_unconfirmed e) s).1
          (rollback_failed h detail old text e (is_unconfirmed e) s).0
  unfolding rollback_failed
  rollback_failed-Done input detail old text e s p =
      unproven_lem h true (is_unconfirmed e) [] _ s
        (λ b.
          Done h input (rollback_failed h detail old text e b s).1
            (rollback_failed h detail old text e b s).0)
        p (fail_latched-Settled h _ true _ _ s) (fail_published-Settled h _ true _ s)

  rolled_back-Done :
      (input : InstanceSpec) (detail : Bytes) (tidy : Tx h (Unit {0})) (old : EpochPlan Document)
      (text : Bytes) (r : Result Instance) (s : Session h)
      → IsQuiet h tidy
      → Replaced h true [] old.revision.epoch r s
      → Done h input
          (rolled_back h detail tidy old text r s).1
          (rolled_back h detail tidy old text r s).0
  unfolding rolled_back revision_of is_rolled_back
  rolled_back-Done input detail tidy old text (ok i) s t (q, p) = Settled-Quiet h _ _ _ _ (t _) (
      install_running-Done h input _ i old s q
        (record { same_revision = refl; same_spec = inl refl }) p)
  rolled_back-Done input detail tidy old text (err e) s t p =
      rollback_failed-Done input detail old text e s p

  roll_back-Done :
      (input : InstanceSpec) (detail : Bytes) (tidy : Tx h (Unit {0})) (old : EpochPlan Document)
      (text : Bytes) (s : Session h)
      → IsQuiet h tidy
      → Safe h true [] s
      → Done h input (roll_back h detail tidy old text s).1 (roll_back h detail tidy old text s).0
  unfolding roll_back
  roll_back-Done input detail tidy old text s t p =
      rolled_back-Done input detail tidy old text _ _ t (
        spawn_replacement-Replaced h true [] old _
          (Safe-Quiet h true [] _ _ (publish-IsQuiet h _ _ s) p))

  tidy_backup-IsQuiet : (saved : Bytes) → IsQuiet h (tidy_backup h saved)
  unfolding tidy_backup
  tidy_backup-IsQuiet saved s = call-IsQuiet h (remove_backup saved) s

  restart_restored-Done :
      (input : InstanceSpec) (old : EpochPlan Document) (saved text : Bytes)
      (r : Result (Option Bytes)) (s : Session h)
      → Safe h true [] s
      → Done h input
          (restart_restored h old saved text r s).1
          (restart_restored h old saved text r s).0
  unfolding restart_restored
  restart_restored-Done input old saved text (ok w) s p =
      durable-Done h input _ w _ (roll_back-Done input _ _ old text s (tidy_backup-IsQuiet saved) p)
  restart_restored-Done input old saved text (err e) s p = fail_published-Settled h _ true _ s p

  restart_failed-Done :
      (input : InstanceSpec) (old desired : EpochPlan Document) (saved : Bytes) (e : Error)
      (s : Session h)
      → Unproven h true [] desired.revision.epoch e s
      → Done h input
          (restart_failed h old desired saved e (is_unconfirmed e) s).1
          (restart_failed h old desired saved e (is_unconfirmed e) s).0
  unfolding restart_failed
  restart_failed-Done input old desired saved e s p =
      unproven_lem h true (is_unconfirmed e) [] _ s
        (λ b.
          Done h input (restart_failed h old desired saved e b s).1
            (restart_failed h old desired saved e b s).0)
        p (fail_latched-Settled h _ true _ e s)
        (λ q.
          restart_restored-Done input old saved _ _ _
            (Safe-Quiet h true [] _ _ (call-IsQuiet h (restore saved) s) q))

  restart_replaced-Done :
      (input : InstanceSpec) (old desired : EpochPlan Document) (saved : Bytes)
      (r : Result Instance) (s : Session h)
      → desired.source_spec ≡ input
      → Replaced h true [] desired.revision.epoch r s
      → Done h input
          (restart_replaced h old desired saved r s).1
          (restart_replaced h old desired saved r s).0
  unfolding restart_replaced revision_of
  restart_replaced-Done input old desired saved (ok i) s e (q, p) =
      Settled-Quiet h _ _ _ _ (call-IsQuiet h (remove_backup saved) _) (
        install_running-Done h input _ i desired s q
          (record { same_revision = refl; same_spec = inr e }) p)
  restart_replaced-Done input old desired saved (err f) s e p =
      restart_failed-Done input old desired saved f s p

  unproven_apply-Done :
      (input : InstanceSpec) (detail : Bytes) (epoch : Epoch) (e : Error) (s : Session h)
      → Unproven h true [] epoch e s
      → Done h input
          (unproven_apply h detail (is_unconfirmed e) epoch e s).1
          (unproven_apply h detail (is_unconfirmed e) epoch e s).0
  unfolding unproven_apply
  unproven_apply-Done input detail epoch e s p =
      unproven_lem h true (is_unconfirmed e) [] _ s
        (λ b.
          Done h input (unproven_apply h detail b epoch e s).1
            (unproven_apply h detail b epoch e s).0)
        p (fail_latched-Settled h _ true _ e s) (fail_published-Settled h _ true _ s)

  restart_retired-Done :
      (input : InstanceSpec) (desired : EpochPlan Document) (saved : Bytes) (r : Retired Document)
      (s : Session h)
      → desired.source_spec ≡ input
      → AfterRetire h [] r s
      → Done h input (restart_retired h desired saved r s).1 (restart_retired h desired saved r s).0
  unfolding restart_retired
  restart_retired-Done input desired saved nothing s e p = failed-Settled h _ true _ s p
  restart_retired-Done input desired saved (retired old) s e p =
      restart_replaced-Done input old desired saved _ _ e (
        spawn_replacement-Replaced h true [] desired _
          (Safe-Quiet h true [] _ _ (publish-IsQuiet h _ _ s) p))
  restart_retired-Done input desired saved (unproven epoch f) s e p =
      unproven_apply-Done input _ epoch f s p

  pub restart_with_compensation-Done :
      (input : InstanceSpec) (desired : EpochPlan Document) (saved : Bytes)
      → desired.source_spec ≡ input
      → Ensures h (Safe h false []) (restart_with_compensation h desired saved) (Done h input)
  unfolding restart_with_compensation
  restart_with_compensation-Done input desired saved e s p =
      restart_retired-Done input desired saved _ _ e (retire_current-AfterRetire h false [] s p)

  switch_failed-Done :
      (input : InstanceSpec) (old desired : EpochPlan Document) (epoch : Epoch) (e : Error)
      (s : Session h)
      → Unproven h true [] desired.revision.epoch e s
      → Done h input
          (switch_failed h old desired epoch e (is_unconfirmed e) s).1
          (switch_failed h old desired epoch e (is_unconfirmed e) s).0
  unfolding switch_failed
  switch_failed-Done input old desired epoch e s p =
      unproven_lem h true (is_unconfirmed e) [] _ s
        (λ b.
          Done h input (switch_failed h old desired epoch e b s).1
            (switch_failed h old desired epoch e b s).0)
        p (fail_latched-Settled h _ true _ e s)
        (λ q.
          roll_back-Done input _ _ old _ _ (Quiet-refl h)
            (Safe-Quiet h true [] _ _ (call-IsQuiet h (cleanup epoch) s) q))

  switch_replaced-Done :
      (input : InstanceSpec) (old desired : EpochPlan Document) (epoch : Epoch)
      (r : Result Instance) (s : Session h)
      → desired.source_spec ≡ input
      → Replaced h true [] desired.revision.epoch r s
      → Done h input
          (switch_replaced h old desired epoch r s).1
          (switch_replaced h old desired epoch r s).0
  unfolding switch_replaced revision_of
  switch_replaced-Done input old desired epoch (ok i) s e (q, p) =
      Settled-Quiet h _ _ _ _ (call-IsQuiet h (cleanup old.revision.epoch) _) (
        install_running-Done h input _ i desired s q
          (record { same_revision = refl; same_spec = inr e }) p)
  switch_replaced-Done input old desired epoch (err f) s e p =
      switch_failed-Done input old desired epoch f s p

  switch_retired-Done :
      (input : InstanceSpec) (desired : EpochPlan Document) (epoch : Epoch) (r : Retired Document)
      (s : Session h)
      → desired.source_spec ≡ input
      → AfterRetire h [] r s
      → Done h input (switch_retired h desired epoch r s).1 (switch_retired h desired epoch r s).0
  unfolding switch_retired
  switch_retired-Done input desired epoch nothing s e p = failed-Settled h _ true _ s p
  switch_retired-Done input desired epoch (retired old) s e p =
      switch_replaced-Done input old desired epoch _ _ e (
        spawn_replacement-Replaced h true [] desired _
          (Safe-Quiet h true [] _ _ (publish-IsQuiet h _ _ s) p))
  switch_retired-Done input desired epoch (unproven before f) s e p =
      unproven_apply-Done input _ before f _
        (Unproven-Quiet h [] before f _ _ (call-IsQuiet h (cleanup epoch) s) p)

  switch_planned-Done :
      (input : InstanceSpec) (epoch : Epoch) (r : Result (EpochPlan Document)) (s : Session h)
      → Gives h (IsFor h input epoch) r
      → Safe h false [] s
      → Done h input (switch_planned h epoch r s).1 (switch_planned h epoch r s).0
  unfolding switch_planned
  switch_planned-Done input epoch (ok plan) s (e, f) p =
      switch_retired-Done input plan epoch _ _ e (retire_current-AfterRetire h false [] s p)
  switch_planned-Done input epoch (err e) s g p = failed-Settled h _ false e s p

  pub switch_with_compensation-Done :
      (input : InstanceSpec) (snapshot : Snapshot Document)
      → Ensures h (Safe h false []) (switch_with_compensation h input snapshot) (Done h input)
  unfolding switch_with_compensation
  switch_with_compensation-Done input snapshot s p =
      switch_planned-Done input _ _ _ (prepare_launch-IsFor h input _ snapshot _) (
        Safe-Quiet h false [] _ _
          (◌then◌ h (next_epoch-IsQuiet h s) (prepare_launch-IsQuiet h input _ snapshot _)) p)
