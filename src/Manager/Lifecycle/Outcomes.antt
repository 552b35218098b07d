-- ===== src/Manager/Lifecycle/Outcomes.antt =====
-- What the manager's methods leave: no core is lost, and a success tells the plan that is in the slot.
use clash_nyanpasu_service.Shared.{◌≡◌, refl, inr, Bool, true, false, Option, none, some, []}
use clash_nyanpasu_service.Failure.{RevisionId}
use clash_nyanpasu_service.Control.Command.{ApplyOutcome}
use clash_nyanpasu_service.Control.Execute.{InstanceSpec}
use clash_nyanpasu_service.Manager.Effects.{Result, ok, err, Snapshot, ResolvedFeatures, Host, load}
use clash_nyanpasu_service.Manager.Fallible.{◌>>=◌, ◌>>◌, lift, proceed}
use clash_nyanpasu_service.Manager.Session.{Active, Session}
use clash_nyanpasu_service.Manager.Session.Quiet.{
  IsQuiet, Quiet-refl, call-IsQuiet, lift-IsQuiet, is_running-IsQuiet, is_running_slot,
}
use clash_nyanpasu_service.Manager.Session.Safety.{Safe, Safe-Quiet, Safe-any, Ensures}
use clash_nyanpasu_service.Manager.Session.Retiring.{discard_stale-Safe, Held}
use clash_nyanpasu_service.Manager.Prepare.Epochs.{
  validate_launchable-IsQuiet, resolve_features-IsQuiet,
}
use clash_nyanpasu_service.Manager.Launch.{start_locked}
use clash_nyanpasu_service.Manager.Launch.Outcomes.{HasSpec, start_locked-Settled}
use clash_nyanpasu_service.Manager.Launch.Settling.{
  Settled, Settled-Quiet, failed-Settled, weaken-Settled,
}
use clash_nyanpasu_service.Manager.Apply.Compensate.Served.{revision_of}
use clash_nyanpasu_service.Manager.Apply.Compensate.Served.{Done}
use clash_nyanpasu_service.Manager.Apply.Outcomes.{apply_locked-Done}
use clash_nyanpasu_service.Manager.Switching.{DegradeReason}
use clash_nyanpasu_service.Manager.Switching.Outcomes.{hard_switch-Settled}
use clash_nyanpasu_service.Manager.Switching.Graceful.Overlap.{graceful_switch-Switched}
use clash_nyanpasu_service.Manager.Dns.Steps.{dns_converge-IsQuiet}
use clash_nyanpasu_service.Manager.Lifecycle.{
  stale_start, start, switch_as, switch_by, switch_running, switch_locked, switch, last_spec,
  restart, apply_config, report_started, started_outcome, reconcile_running, reconcile_locked,
  converge_if, converge_tail, reconcile_admitted, reconcile,
}
use clash_nyanpasu_service.Manager.Lifecycle.Rules.{
  bind_in_slot-Settled, hard_reported, next_in_slot-Settled, proceed-Settled, quiet_bind-Settled,
  quiet_next-Settled, reject_quarantine-IsQuiet, rely-IsQuiet,
}

module _ (h : Host) where
  open h use {Instance, Document}

  stale_start-Settled :
      (spec : InstanceSpec)
      → Ensures h (Safe h false []) (stale_start h spec) (Settled h (HasSpec h spec))
  unfolding stale_start ◌>>◌
  stale_start-Settled spec s p =
      proceed-Settled h (HasSpec h spec) (Safe h true []) (λ a. start_locked h spec) _ _
        (discard_stale-Safe h false [] s p) (Safe-any h true [] _)
        (λ a. start_locked-Settled h spec)

  pub start-Settled :
      (spec : InstanceSpec)
      → Ensures h (Safe h false []) (start h spec) (Settled h (HasSpec h spec))
  unfolding start
  start-Settled spec = quiet_next-Settled h _ _ _ (reject_quarantine-IsQuiet h) (
      quiet_bind-Settled h _ _ _ (lift-IsQuiet h _ (is_running-IsQuiet h))
        λ running. quiet_next-Settled h _ _ _ (rely-IsQuiet h _) (stale_start-Settled spec))

  switch_as-Settled :
      (spec : InstanceSpec) (snapshot : Snapshot Document) (resolved : ResolvedFeatures)
      (o : Option DegradeReason) (x : Active h)
      → Ensures h (Held h x) (switch_as h spec snapshot resolved o) (Settled h (HasSpec h spec))
  unfolding switch_as ◌>>◌
  switch_as-Settled spec snapshot resolved (some reason) x s p =
      hard_reported h spec _ _ _ (hard_switch-Settled h spec snapshot resolved s p.safe)
  switch_as-Settled spec snapshot resolved none x s p =
      graceful_switch-Switched h spec snapshot resolved x s p

  switch_by-Settled :
      (spec : InstanceSpec) (snapshot : Snapshot Document) (resolved : ResolvedFeatures)
      (x : Active h)
      → Ensures h (Held h x) (switch_by h spec snapshot resolved) (Settled h (HasSpec h spec))
  unfolding switch_by
  switch_by-Settled spec snapshot resolved x s p = switch_as-Settled spec snapshot resolved _ x s p

  switch_running-Settled :
      (spec : InstanceSpec) (running : Bool) (s : Session h)
      → Safe h false [] s
      → ((running ≡ true) → (x : Active h) × (s.current ≡ some x))
      → Settled h
          (HasSpec h spec)
          (switch_running h spec running s).1
          (switch_running h spec running s).0
  unfolding switch_running ◌>>◌
  switch_running-Settled spec true s p k =
      let (x, c) = k refl in
      bind_in_slot-Settled h _ x _ _ (call-IsQuiet h (load spec.config_path))
        (λ snapshot. next_in_slot-Settled h _ x _ _ (validate_launchable-IsQuiet h spec) (
          bind_in_slot-Settled h _ x _ _ (resolve_features-IsQuiet h spec)
            λ resolved. switch_by-Settled spec snapshot resolved x))
        s (record { safe = p; slot = c })
  switch_running-Settled spec false s p k =
      hard_reported h spec _ _ _ (stale_start-Settled spec s p)

  switch_locked-Settled :
      (spec : InstanceSpec)
      → Ensures h (Safe h false []) (switch_locked h spec) (Settled h (HasSpec h spec))
  unfolding switch_locked ◌>>=◌ lift proceed
  switch_locked-Settled spec s p =
      switch_running-Settled spec _ _ (Safe-Quiet h false [] _ _ (is_running-IsQuiet h s) p)
        (is_running_slot h s)

  -- From a state where no core is lost, `switch` leaves no core lost, and where it succeeds, by a hard switch,
  -- a graceful one or a fresh start, the slot holds a plan whose source is the spec that was asked for.
  pub switch-Settled :
      (spec : InstanceSpec)
      → Ensures h (Safe h false []) (switch h spec) (Settled h (HasSpec h spec))
  unfolding switch
  switch-Settled spec =
      quiet_next-Settled h _ _ _ (reject_quarantine-IsQuiet h) (switch_locked-Settled spec)

  -- From a state where no core is lost, `apply_config` leaves no core lost, and where it succeeds the outcome
  -- carries the revision of the plan in the slot, and that plan's source is the spec that was asked for unless
  -- the outcome is a rollback.
  pub apply_config-Done :
      (input : InstanceSpec) (expected : Option RevisionId)
      → Ensures h (Safe h false []) (apply_config h input expected) (Done h input)
  unfolding apply_config
  apply_config-Done input expected =
      quiet_next-Settled h _ _ _ (reject_quarantine-IsQuiet h) (apply_locked-Done h input expected)

  started-Done :
      (spec : InstanceSpec) (o : Option (Active h)) (x : Active h) (s : Session h)
      → s.current ≡ o
      → s.current ≡ some x
      → Safe h false [] s
      → x.plan.source_spec ≡ spec
      → Done h spec (started_outcome h o) s
  unfolding started_outcome revision_of
  started-Done spec none x s c d p g = absurd (cc (c, d))
  started-Done spec (some a) x s c d p g = record {
    safe = p;
    fills = (a, c, record { same_revision = refl; same_spec = inr (cc (c, d, g)) });
  }

  report_started-Done :
      (spec : InstanceSpec) (r : Result (Unit {0})) (s : Session h)
      → Settled h (HasSpec h spec) r s
      → Done h spec (proceed (λ a. report_started h) r s).1 (proceed (λ a. report_started h) r s).0
  unfolding proceed report_started
  report_started-Done spec (ok u) s p =
      let (x, c, g) = p.fills in started-Done spec s.current x s refl c p.safe g
  report_started-Done spec (err e) s p = failed-Settled h _ false e s p.safe

  stale_reported-Done :
      (spec : InstanceSpec)
      → Ensures h (Safe h false []) (stale_start h spec >> report_started h) (Done h spec)
  unfolding ◌>>◌
  stale_reported-Done spec s p = report_started-Done spec _ _ (stale_start-Settled spec s p)

  reconcile_running-Done :
      (spec : InstanceSpec) (expected : Option RevisionId) (running : Bool)
      → Ensures h (Safe h false []) (reconcile_running h spec expected running) (Done h spec)
  unfolding reconcile_running
  reconcile_running-Done spec expected true = apply_locked-Done h spec expected
  reconcile_running-Done spec expected false =
      quiet_next-Settled h _ _ _ (rely-IsQuiet h _) (stale_reported-Done spec)

  reconcile_locked-Done :
      (spec : InstanceSpec) (expected : Option RevisionId)
      → Ensures h (Safe h false []) (reconcile_locked h spec expected) (Done h spec)
  unfolding reconcile_locked
  reconcile_locked-Done spec expected =
      quiet_bind-Settled h _ _ _ (lift-IsQuiet h _ (is_running-IsQuiet h))
        (reconcile_running-Done spec expected)

  converge_if-IsQuiet : (b : Bool) → IsQuiet h (converge_if h b)
  unfolding converge_if
  converge_if-IsQuiet true s = dns_converge-IsQuiet h s
  converge_if-IsQuiet false s = Quiet-refl h s

  converge_tail-Done :
      (spec : InstanceSpec) (r : Result ApplyOutcome) (s : Session h)
      → Done h spec r s
      → Done h spec (converge_tail h r s).1 (converge_tail h r s).0
  unfolding converge_tail
  converge_tail-Done spec r s p =
      Settled-Quiet h _ r _ _ (converge_if-IsQuiet _ _)
        (Settled-Quiet h _ r _ _ (is_running-IsQuiet h s) p)

  reconcile_admitted-Done :
      (spec : InstanceSpec) (expected : Option RevisionId)
      → Ensures h (Safe h false []) (reconcile_admitted h spec expected) (Done h spec)
  unfolding reconcile_admitted
  reconcile_admitted-Done spec expected s p =
      converge_tail-Done spec _ _ (reconcile_locked-Done spec expected s p)

  -- From a state where no core is lost, `reconcile` leaves no core lost, whichever transaction it derives, and
  -- where it succeeds the outcome carries the revision of the plan in the slot, and that plan's source is the
  -- spec that was asked for unless the outcome is a rollback.
  pub reconcile-Done :
      (spec : InstanceSpec) (expected : Option RevisionId)
      → Ensures h (Safe h false []) (reconcile h spec expected) (Done h spec)
  unfolding reconcile
  reconcile-Done spec expected =
      quiet_next-Settled h _ _ _ (reject_quarantine-IsQuiet h)
        (reconcile_admitted-Done spec expected)

  last_spec-IsQuiet : IsQuiet h (last_spec h)
  unfolding last_spec
  last_spec-IsQuiet s = Quiet-refl h s

  -- The restart is of the spec that was kept.
  pub restart-Settled : Ensures h (Safe h false []) (restart h) (Settled h (λ o x. Unit))
  unfolding restart
  restart-Settled = quiet_next-Settled h _ _ _ (reject_quarantine-IsQuiet h) (
      quiet_bind-Settled h _ _ _ last_spec-IsQuiet λ spec s p.
        weaken-Settled h _ (HasSpec h spec) _ _ (λ a x g. tt) (switch_locked-Settled spec s p))
