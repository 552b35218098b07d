-- ===== src/Manager/Session.antt =====
-- The state of the manager under its control lock (`Ctrl` of
-- crates/nyanpasu-core-manager/src/manager/mod.rs, with the published status), and the steps that the
-- transactions share. The task that forwards an instance's updates is not part of a transaction.
pub mod Safety
pub mod Latching
pub mod Retiring
pub mod Replacing
pub mod Quiet
use clash_nyanpasu_service.Shared.{
  ℕ, ◌+◌, ◌≡◌, Bytes, codes, Bool, true, false, not, Option, none, some, List, [], ◌∷◌, ◌++◌,
  if◌then◌else◌,
}
use clash_nyanpasu_service.Failure.{Epoch, Error}
use clash_nyanpasu_service.Control.Command.{ConfigRevision, LocalIpcSettings}
use clash_nyanpasu_service.Control.Execute.{InstanceSpec}
use clash_nyanpasu_service.Manager.Quarantine.{Quarantine, record_quarantine, quarantine_error}
use clash_nyanpasu_service.Manager.Status.{
  InstanceState, InstanceStatus, CoreState, CoreStatus, SpecSummary, StopReason,
  core_state_discrete, decided, default_health_for_state,
}
use clash_nyanpasu_service.Manager.Effects.{
  Result, ok, err, M, ◌>>=◌, ◌>>◌, return, is_unconfirmed, EpochPlan, DnsOverrideRecord, Ask,
  Answer, Host, observe, wait_ready, now, cleanup,
}

-- Whether an instance's core has ended: `InstanceState::is_terminal`.
unfoldable pub is_ended : InstanceState → Bool
is_ended (InstanceState.stopped reason) = true
is_ended _ = false

pub data Retired (Document : Type 0) : Type 0 where
  nothing : Retired Document
  retired : EpochPlan Document → Retired Document
  -- `RetireFailure`.
  unproven : Epoch → Error → Retired Document

spec_summary : {D : Type 0} → EpochPlan D → SpecSummary
spec_summary p = record {
  kind = p.source_spec.core.kind;
  config_path = p.source_spec.config_path;
  capabilities = p.capabilities;
  runtime_features = p.runtime_features;
}

changed_at : CoreStatus → CoreState → ℕ → ℕ
changed_at status state time =
    if decided (core_state_discrete status.state state) then status.changed_at else time

-- The status that `publish` leaves, with a plan and without one.
published : {D : Type 0} → CoreStatus → CoreState → Option (EpochPlan D) → ℕ → CoreStatus
unfolding spec_summary changed_at
published status state none time = record {
  state = state;
  instance_id = none;
  health = default_health_for_state status.health state time;
  spec = none;
  controller = none;
  revision = none;
  changed_at = changed_at status state time;
}
published status state (some plan) time = record {
  state = state;
  instance_id = none;
  health = default_health_for_state status.health state time;
  spec = some (spec_summary plan);
  controller = some plan.controller.host;
  revision = some plan.revision;
  changed_at = changed_at status state time;
}

-- The status that `publish_instance` leaves.
published_instance :
    {D : Type 0}
    → (host : Bytes) → CoreStatus
    → CoreState
    → EpochPlan D
    → InstanceStatus
    → ℕ
    → CoreStatus
unfolding spec_summary changed_at
published_instance host status state plan snapshot time = record {
  state = state;
  instance_id = snapshot.instance_id;
  health = snapshot.health;
  spec = some (spec_summary plan);
  controller = some host;
  revision = some plan.revision;
  changed_at = changed_at status state time;
}

-- `EffectiveConfigSnapshot`.
pub record Committed (Document : Type 0) : Type 0 where
  pub instance_id : ℕ
  pub revision : ConfigRevision
  pub config : Document

-- What `publish_instance` leaves in `config_commits`.
commit :
    {D : Type 0} → CoreState → EpochPlan D → Option ℕ → Option (Committed D) → Option (Committed D)
commit (CoreState.running epoch process) plan (some id) last =
    some (record { instance_id = id; revision = plan.revision; config = plan.effective_document })
commit _ plan _ last = last

module _ (h : Host) where
  open h use {World, Instance, Document, Patch}

  pub record Active : Type 0 where
    pub instance : Instance
    pub plan : EpochPlan Document

  pub record Session : Type 0 where
    pub world : World
    pub current : Option Active
    pub last_epoch : Epoch
    pub last_spec : Option InstanceSpec
    pub quarantine : Quarantine
    pub dns_record : Option DnsOverrideRecord
    pub status : CoreStatus
    pub commits : Option (Committed Document)

  abbrev pub Tx : Type 0 → Type 0
  Tx A = M Session A

  unfoldable pub call : (a : Ask Instance Document Patch) → Tx (Answer a)
  call a s = (record s { world = (h.ask a s.world).0 }, (h.ask a s.world).1)

  pub set_status : (CoreStatus → CoreStatus) → Tx (Unit {0})
  set_status f s = (record s { status = f s.status }, tt)

  set_commits : (Option (Committed Document) → Option (Committed Document)) → Tx (Unit {0})
  set_commits f s = (record s { commits = f s.commits }, tt)

  -- `Inner::publish`.
  pub publish : CoreState → Option (EpochPlan Document) → Tx (Unit {0})
  unfolding published
  publish state plan = do time ← call now; set_status (λ status. published status state plan time)

  -- `publish_instance`, and `publish_active`.
  pub publish_instance : Instance → CoreState → EpochPlan Document → Tx (Unit {0})
  unfolding published_instance commit
  publish_instance i state plan = do
    snapshot ← call (observe i)
    set_commits (commit state plan snapshot.instance_id)
    time ← call now
    set_status
        (λ status. published_instance (h.controller_of i).host status state plan snapshot time)

  -- `publish_terminal_error`.
  pub publish_terminal_error : Error → Tx (Unit {0})
  publish_terminal_error error =
      publish (CoreState.stopped (some (StopReason.error (h.to_string error)))) none

  pub publish_quarantine : Option Error → Tx (Unit {0})
  publish_quarantine none = return tt
  publish_quarantine (some error) = publish_terminal_error error

  -- `record_quarantine` on the session.
  pub quarantine_epoch : Epoch → Bytes → Tx (Unit {0})
  quarantine_epoch epoch reason s =
      (record s { quarantine = record_quarantine epoch reason s.quarantine }, tt)

  -- `latch_quarantine`; the `expect` is met, since an entry was just recorded.
  pub latch_quarantine : Epoch → Error → Tx Error
  unfolding publish_quarantine
  latch_quarantine epoch error = do
    quarantine_epoch epoch (h.to_string error)
    λ s. publish_quarantine (quarantine_error s.quarantine) s
    return error

  -- `EpochAllocator::next`; its overflow is a panic at 2 ^ 64 epochs.
  pub next_epoch : Tx Epoch
  next_epoch s = (record s { last_epoch = s.last_epoch + 1 }, s.last_epoch + 1)

  pub launch : EpochPlan Document → Tx (Result Instance)
  launch plan s = (record s { world = (h.launch plan s.world).0 }, (h.launch plan s.world).1)

  pub stop_instance : Instance → Tx (Result (Unit {0}))
  stop_instance i s = (
    record s { world = (h.stop_and_confirm_dead i s.world).0 },
    (h.stop_and_confirm_dead i s.world).1,
  )

  -- `install`.
  pub install : Instance → EpochPlan Document → Tx (Unit {0})
  install i plan s = (
    record s {
      last_spec = some plan.source_spec;
      current = some (record { instance = i; plan = plan });
    },
    tt,
  )

  pub retire_outcome : EpochPlan Document → Result (Unit {0}) → Retired Document
  retire_outcome plan (ok u) = retired plan
  retire_outcome plan (err error) = unproven plan.revision.epoch error

  pub retire : Option Active → Tx (Retired Document)
  unfolding retire_outcome
  retire none = return nothing
  retire (some a) = do result ← stop_instance a.instance; return (retire_outcome a.plan result)

  pub take_current : Tx (Option Active)
  take_current s = (record s { current = none }, s.current)

  -- `retire_current`.
  pub retire_current : Tx (Retired Document)
  unfolding retire take_current
  retire_current = do active ← take_current; retire active

  -- A failed stop is latched where the death of the core is not proven.
  pub latch_unconfirmed : Epoch → Error → Tx Error
  latch_unconfirmed epoch error =
      if is_unconfirmed error then latch_quarantine epoch error else return error

  pub discard : Retired Document → Tx (Result (Unit {0}))
  discard nothing = return (ok tt)
  discard (retired plan) = call (cleanup plan.revision.epoch)
  discard (unproven epoch error) = do e ← latch_unconfirmed epoch error; return (err e)

  -- `discard_stale`.
  pub discard_stale : Tx (Result (Unit {0}))
  unfolding discard
  discard_stale = do r ← retire_current; discard r

  pub rejected : Instance → Error → Result (Unit {0}) → Result Instance
  rejected i error (ok u) = err error
  rejected i error (err stop_error) = err (
      Error.stop_unconfirmed (
        h.to_string error
        ++ (codes "; failed to stop rejected replacement: " ++ h.to_string stop_error)))

  pub await_ready : Instance → Result (Unit {0}) → Tx (Result Instance)
  unfolding rejected
  await_ready i (ok u) = return (ok i)
  await_ready i (err error) = do stopped ← stop_instance i; return (rejected i error stopped)

  pub await_spawned : Result Instance → Tx (Result Instance)
  unfolding await_ready
  await_spawned (err error) = return (err error)
  await_spawned (ok i) = do ready ← call (wait_ready i); await_ready i ready

  -- `spawn_replacement`.
  pub spawn_replacement : EpochPlan Document → Tx (Result Instance)
  unfolding await_spawned
  spawn_replacement plan = do spawned ← launch plan; await_spawned spawned

  -- Whether the slot holds an instance that has not ended.
  pub running_in : Option Active → Tx Bool
  running_in none = return false
  running_in (some a) = do status ← call (observe a.instance); return (not (is_ended status.state))

  pub is_running : Tx Bool
  unfolding running_in
  is_running s = running_in s.current s
