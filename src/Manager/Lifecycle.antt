-- ===== src/Manager/Lifecycle.antt =====
-- The manager's methods, with the control lock held for each: `start` of
-- crates/nyanpasu-core-manager/src/manager/mod.rs, `apply_config` of manager/apply.rs, `restart`,
-- `switch` and `switch_locked` of manager/switching.rs, and `reconcile` of manager/reconcile.rs.
pub mod Rules
pub mod Outcomes
pub mod Refusals
pub mod Runs
use clash_nyanpasu_service.Shared.{Bytes, not, Bool, true, false, Option, none, some, ◌||◌}
use clash_nyanpasu_service.Failure.{Epoch, Error, RevisionId}
use clash_nyanpasu_service.Control.Command.{ApplyOutcome}
use clash_nyanpasu_service.Control.Execute.{InstanceSpec}
use clash_nyanpasu_service.Manager.Quarantine.{quarantine_error}
use clash_nyanpasu_service.Manager.Effects.{
  M, Result, ok, err, EpochPlan, Snapshot, ResolvedFeatures, Host, load,
}
use clash_nyanpasu_service.Manager.Fallible.{◌>>=◌, ◌>>◌, return, throw, lift, rely}
use clash_nyanpasu_service.Manager.Session.{Active, Session, Tx, call, is_running, discard_stale}
use clash_nyanpasu_service.Manager.Prepare.{validate_launchable, resolve_features}
use clash_nyanpasu_service.Manager.Launch.{start_locked}
use clash_nyanpasu_service.Manager.Stopping.{stop, shutdown}
use clash_nyanpasu_service.Manager.Apply.{apply_locked}
use clash_nyanpasu_service.Manager.Apply.Compensate.{slot_expected}
use clash_nyanpasu_service.Manager.Switching.{
  DegradeReason, SwitchOutcome, degrade_reason, hard_switch,
}
use clash_nyanpasu_service.Manager.Switching.Graceful.{graceful_switch}
use clash_nyanpasu_service.Manager.Dns.{dns_converge}

admitted : Option Error → Result (Unit {0})
admitted none = ok tt
admitted (some error) = err error

refuse_running : Bool → Result (Unit {0})
refuse_running true = err Error.already_running
refuse_running false = ok tt

last_spec_of : Option InstanceSpec → Result InstanceSpec
last_spec_of none = err Error.not_started
last_spec_of (some spec) = ok spec

nothing_applied : Option RevisionId → Result (Unit {0})
nothing_applied none = ok tt
nothing_applied (some expected) = err (Error.revision_conflict expected none)

module _ (h : Host) where
  open h use {Document}

  started_outcome : Option (Active h) → Result ApplyOutcome
  started_outcome none = err slot_expected
  started_outcome (some a) = ok (ApplyOutcome.started a.plan.revision)

  -- `reject_quarantine`.
  pub reject_quarantine : Tx h (Result (Unit {0}))
  unfolding admitted
  reject_quarantine s = (s, admitted (quarantine_error s.quarantine))

  stale_start : InstanceSpec → Tx h (Result (Unit {0}))
  stale_start spec = do discard_stale h; start_locked h spec

  -- `start`.
  pub start : InstanceSpec → Tx h (Result (Unit {0}))
  unfolding reject_quarantine refuse_running stale_start
  start spec = do
    reject_quarantine
    running ← lift (is_running h)
    rely (refuse_running running)
    stale_start spec

  switch_as :
      InstanceSpec
      → Snapshot Document
      → ResolvedFeatures
      → Option DegradeReason
      → Tx h (Result SwitchOutcome)
  switch_as spec snapshot resolved (some reason) = do
    hard_switch h spec snapshot resolved
    return (SwitchOutcome.hard reason)
  switch_as spec snapshot resolved none = graceful_switch h spec snapshot resolved

  switch_by : InstanceSpec → Snapshot Document → ResolvedFeatures → Tx h (Result SwitchOutcome)
  unfolding switch_as
  switch_by spec snapshot resolved s =
      switch_as spec snapshot resolved (degrade_reason h spec snapshot resolved s.current) s

  switch_running : InstanceSpec → Bool → Tx h (Result SwitchOutcome)
  unfolding switch_by stale_start
  switch_running spec true = do
    snapshot ← call h (load spec.config_path)
    validate_launchable h spec
    resolved ← resolve_features h spec
    switch_by spec snapshot resolved
  switch_running spec false = do
    stale_start spec
    return (SwitchOutcome.hard DegradeReason.not_running)

  -- `switch_locked`.
  pub switch_locked : InstanceSpec → Tx h (Result SwitchOutcome)
  unfolding switch_running
  switch_locked spec = do running ← lift (is_running h); switch_running spec running

  -- `switch`.
  pub switch : InstanceSpec → Tx h (Result SwitchOutcome)
  unfolding reject_quarantine switch_locked
  switch spec = do reject_quarantine; switch_locked spec

  last_spec : Tx h (Result InstanceSpec)
  unfolding last_spec_of
  last_spec s = (s, last_spec_of s.last_spec)

  -- `restart`.
  pub restart : Tx h (Result SwitchOutcome)
  unfolding reject_quarantine switch_locked last_spec
  restart = do reject_quarantine; spec ← last_spec; switch_locked spec

  -- `apply_config`.
  pub apply_config : InstanceSpec → Option RevisionId → Tx h (Result ApplyOutcome)
  unfolding reject_quarantine
  apply_config input expected = do reject_quarantine; apply_locked h input expected

  report_started : Tx h (Result ApplyOutcome)
  unfolding started_outcome
  report_started s = (s, started_outcome s.current)

  reconcile_running : InstanceSpec → Option RevisionId → Bool → Tx h (Result ApplyOutcome)
  unfolding nothing_applied stale_start report_started
  reconcile_running spec expected true = apply_locked h spec expected
  reconcile_running spec expected false = do
    rely (nothing_applied expected)
    stale_start spec
    report_started

  -- `reconcile_locked`.
  pub reconcile_locked : InstanceSpec → Option RevisionId → Tx h (Result ApplyOutcome)
  unfolding reconcile_running
  reconcile_locked spec expected = do
    running ← lift (is_running h)
    reconcile_running spec expected running

  is_ok : {A : Type 0} → Result A → Bool
  is_ok (ok a) = true
  is_ok (err error) = false

  converge_if : Bool → Tx h (Unit {0})
  converge_if true s = dns_converge h s
  converge_if false s = (s, tt)

  -- The DNS override follows, but where a refusal left the core that runs as it was.
  converge_tail : Result ApplyOutcome → Tx h (Result ApplyOutcome)
  unfolding converge_if is_ok
  converge_tail result s =
      let (t, alive) = is_running h s in ((converge_if (is_ok result || not alive) t).0, result)

  reconcile_admitted : InstanceSpec → Option RevisionId → Tx h (Result ApplyOutcome)
  unfolding reconcile_locked converge_tail
  reconcile_admitted spec expected s =
      let (t, result) = reconcile_locked spec expected s in converge_tail result t

  -- `reconcile`.
  pub reconcile : InstanceSpec → Option RevisionId → Tx h (Result ApplyOutcome)
  unfolding reject_quarantine reconcile_admitted
  reconcile spec expected = do reject_quarantine; reconcile_admitted spec expected
