-- ===== src/Manager/Tests.antt =====
-- The theorems on the manager at concrete states of the sample host.
use clash_nyanpasu_service.Shared.{
  ℕ, ◌≡◌, ◌≢◌, refl, ap, inl, inr, Bytes, bytes_eq, bytes_eq_iff, Bool, true, false, none, some, [],
  ◌∷◌, codes, arith,
}
use clash_nyanpasu_service.Failure.{Error, RevisionId}
use clash_nyanpasu_service.Control.Command.{CoreKind, revision_id}
use clash_nyanpasu_service.Control.Execute.{InstanceSpec}
use clash_nyanpasu_service.Manager.Quarantine.{QuarantinedEpoch, quarantine_error, first_reason}
use clash_nyanpasu_service.Manager.Status.{CoreState, CoreStatus}
use clash_nyanpasu_service.Manager.Effects.{
  ok, err, EpochPlan, DnsOverrideRecord, observe, apply_dns, restore_dns,
}
use clash_nyanpasu_service.Manager.Session.{Active, Session, call, is_ended}
use clash_nyanpasu_service.Manager.Session.Safety.{Safe}
use clash_nyanpasu_service.Manager.Launch.Outcomes.{HasSpec}
use clash_nyanpasu_service.Manager.Launch.Settling.{Settled}
use clash_nyanpasu_service.Manager.Stopping.{stop, shutdown}
use clash_nyanpasu_service.Manager.Stopping.Vacant.{Vacant, stop-Vacant, shutdown-Vacant}
use clash_nyanpasu_service.Manager.Apply.Compensate.Served.{Done}
use clash_nyanpasu_service.Manager.Dns.{Baseline, baseline, baseline_of, dns_converge, dns_restore}
use clash_nyanpasu_service.Manager.Dns.Recorded.{is_apply_dns, Tracked, dns-Tracked}
use clash_nyanpasu_service.Manager.Dns.Kept.{Kept, dns_converge-Kept}
use clash_nyanpasu_service.Manager.Lifecycle.{start, switch, restart, apply_config, reconcile}
use clash_nyanpasu_service.Manager.Lifecycle.Outcomes.{
  switch-Settled, apply_config-Done, reconcile-Done,
}
use clash_nyanpasu_service.Manager.Lifecycle.Refusals.{quarantined_lem, apply_config-conflict}
use clash_nyanpasu_service.Manager.Lifecycle.Runs.{
  start_call, switch_call, restart_call, stop_call, reconcile_call, serve_all, NoneLost,
  serve_all-NoneLost,
}
use clash_nyanpasu_service.Manager.Sample.{
  Machine, Question, lives, reply, after, prepared, own_record, host,
}

abbrev spec : InstanceSpec
spec = record {
  core = record {
    kind = CoreKind.mihomo;
    binary_path = codes "mihomo";
    version = none;
    features = [];
  };
  config_path = codes "config.yaml";
  working_dir = codes "work";
  pid_file = none;
  options = record {
    local_ipc = none;
    startup_timeout = 5000;
    health = record {
      interval = 250;
      timeout = 1000;
      failure_threshold = 3;
      success_threshold = 1;
      start_period = 0;
    };
    restart_and_backoff = 0;
  };
}

abbrev plan : EpochPlan Bytes
plan = record {
  source_spec = spec;
  effective_spec = spec;
  controller = prepared.controller;
  revision = record {
    epoch = 1;
    generation = 1;
    source_hash = codes "a";
    effective_hash = codes "b";
    runtime_path = codes "runtime.yaml";
  };
  capabilities = [];
  runtime_features = [];
  source_document = codes "rule";
  effective_document = codes "rule";
}

abbrev stopped_status : CoreStatus
stopped_status = record {
  state = CoreState.stopped none;
  instance_id = none;
  health = none;
  spec = none;
  controller = none;
  revision = none;
  changed_at = 0;
}

abbrev fresh : (c : Bool) → Session (host c)
fresh c = record {
  world = record { alive = []; overridden = false };
  current = none;
  last_epoch = 0;
  last_spec = none;
  quarantine = [];
  dns_record = none;
  status = stopped_status;
  commits = none;
}

fresh-Safe : (c : Bool) → Safe (host c) false [] (fresh c)
unfolding lives
fresh-Safe c = record {
  accounted = λ i e. absurd (cc e);
  agrees = λ a e. absurd (cc e);
  slot = λ e. absurd (cc e);
}

abbrev active : (c : Bool) → Active (host c)
active c = record { instance = 1; plan = plan }

-- A core that runs.
abbrev running : (c : Bool) → Session (host c)
running c = record (fresh c) {
  world = record { alive = 1 ∷ []; overridden = false };
  current = some (active c);
  last_epoch = 1;
  last_spec = some spec;
}

lives_one : (i : ℕ) → lives i (1 ∷ []) ≡ true → i ≡ 1
unfolding lives
lives_one i e = ground (arith)

running-Safe : (c : Bool) → Safe (host c) false [] (running c)
running-Safe c = record {
  accounted = λ i e. inr (inl (active c, refl, lives_one i e));
  agrees = λ a e. (cc e, cc e);
  slot = λ e. absurd (cc e);
}

serve_all-NoneLost_example : NoneLost (host false) (
    serve_all
      (host false)
      (start_call spec
        ∷ switch_call spec
        ∷ stop_call
        ∷ restart_call
        ∷ reconcile_call spec none
        ∷ [])
      (fresh false))
serve_all-NoneLost_example = serve_all-NoneLost (host false) _ (fresh false) (fresh-Safe false)

switch-Settled_example :
    Settled
      (host true)
      (HasSpec (host true) spec)
      (switch (host true) spec (running true)).1
      (switch (host true) spec (running true)).0
switch-Settled_example = switch-Settled (host true) spec (running true) (running-Safe true)

apply_config-Done_example :
    Done
      (host false)
      spec
      (apply_config (host false) spec none (running false)).1
      (apply_config (host false) spec none (running false)).0
apply_config-Done_example =
    apply_config-Done (host false) spec none (running false) (running-Safe false)

reconcile-Done_example :
    Done
      (host true)
      spec
      (reconcile (host true) spec none (fresh true)).1
      (reconcile (host true) spec none (fresh true)).0
reconcile-Done_example = reconcile-Done (host true) spec none (fresh true) (fresh-Safe true)

stop-Vacant_example : Vacant (host false) (stop (host false) (running false)).0
stop-Vacant_example = stop-Vacant (host false) (running false) (running-Safe false)

shutdown-Vacant_example : Vacant (host false) (shutdown (host false) (running false)).0
shutdown-Vacant_example = shutdown-Vacant (host false) (running false) (running-Safe false)

abbrev uncertain : QuarantinedEpoch
uncertain = record { epoch = 1; reason = codes "no proof of death"; death_proven = false }

abbrev latched : Session (host false)
latched = record (fresh false) { quarantine = uncertain ∷ [] }

abbrev gate : Error
gate = Error.manager_quarantined 1 (codes "no proof of death")

latched_gate : quarantine_error latched.quarantine ≡ some gate
unfolding quarantine_error first_reason
latched_gate = refl

quarantined_lem_example :
    (start (host false) spec latched ≡ (latched, err gate))
    × (switch (host false) spec latched ≡ (latched, err gate))
    × (restart (host false) latched ≡ (latched, err gate))
    × (apply_config (host false) spec none latched ≡ (latched, err gate))
    × (reconcile (host false) spec none latched ≡ (latched, err gate))
quarantined_lem_example = quarantined_lem (host false) spec none gate latched latched_gate

abbrev stale : RevisionId
stale = record { epoch = 1; generation = 1; effective_hash = codes "c" }

no_quarantine : quarantine_error (running true).quarantine ≡ none
unfolding quarantine_error
no_quarantine = refl

runs : is_ended (call (host true) (observe 1) (running true)).1.state ≡ false
unfolding is_ended call reply lives
runs = refl

stale_differs : stale ≢ revision_id plan.revision
unfolding revision_id bytes_eq codes
stale_differs e =
    let same : false ≡ true =
      (bytes_eq_iff (codes "c") (codes "b")).1 (ap (λ r. r.effective_hash) e) in
    absurd (cc same)

apply_config-conflict_example : apply_config (host true) spec (some stale) (running true) ≡ (
  (call (host true) (observe 1) (running true)).0,
  err (Error.revision_conflict stale (some (revision_id plan.revision))),
)
apply_config-conflict_example =
    apply_config-conflict (host true) (active true) spec stale (running true) no_quarantine refl
      runs stale_differs

abbrev Overridden : Machine → Type 0
Overridden m = m.overridden ≡ true

apply_only :
    (a : Question) (m : Machine) → is_apply_dns a ≡ false → Overridden (after a m) → Overridden m
unfolding after is_apply_dns
apply_only (apply_dns servers epoch) m e o = absurd (cc e)
apply_only (restore_dns r) m e o = absurd (cc o)
apply_only _ m e o = o

restore_clean :
    (r : DnsOverrideRecord) (m : Machine) (u : Unit {0})
    → reply (restore_dns r) m ≡ some (ok u)
    → Overridden (after (restore_dns r) m)
    → ⊥
unfolding after
restore_clean r m u e o = absurd (cc o)

not_overridden : Tracked (host true) Overridden apply_only restore_clean (running true)
not_overridden = inl λ o. absurd (cc o)

dns-Tracked_example :
    Tracked
      (host true)
      Overridden
      apply_only
      restore_clean
      (dns_converge (host true) (running true)).0
    × Tracked
        (host true)
        Overridden
        apply_only
        restore_clean
        (dns_restore (host true) (running true)).0
dns-Tracked_example =
    dns-Tracked (host true) Overridden apply_only restore_clean (running true) not_overridden

abbrev first_baseline : Baseline
first_baseline = (codes "en0", codes "1.1.1.1" ∷ [])

abbrev overridden : Session (host true)
overridden = record (running true) { dns_record = some own_record }

overridden_baseline : baseline overridden.dns_record ≡ some first_baseline
unfolding baseline baseline_of codes
overridden_baseline = refl

dns_converge-Kept_example : Kept (host true) first_baseline (dns_converge (host true) overridden).0
dns_converge-Kept_example =
    dns_converge-Kept (host true) first_baseline overridden overridden_baseline
