-- ===== src/Manager/Dns.antt =====
-- The DNS override around a transaction: `dns_converge`, `dns_restore` and `persist_dns_record` of
-- crates/nyanpasu-core-manager/src/manager/dns_sync.rs. The file protocol of the record is one call of
-- the host, and a warning that is only logged is left out.
pub mod Steps
pub mod Recorded
pub mod Kept
use clash_nyanpasu_service.Shared.{
  ℕ, Bytes, Bool, true, false, not, Option, none, some, List, [], ◌∷◌, if◌then◌else◌, bytes_eq,
}
use clash_nyanpasu_service.Failure.{Epoch, Error}
use clash_nyanpasu_service.Manager.Status.{InstanceStatus}
use clash_nyanpasu_service.Manager.Effects.{
  Result, ok, err, M, Awaited, ◌>>=◌, ◌>>◌, return, DnsOverrideState, DnsOverrideRecord, Host,
  observe, apply_dns, restore_dns, write_record,
}
use clash_nyanpasu_service.Manager.Session.{Active, Session, Tx, call, is_ended}

-- What the override takes over from: the interface, and its servers before.
abbrev pub Baseline : Type 0
Baseline = Bytes × List Bytes

-- The baseline of a record; one with no interface was never read back.
unfoldable pub baseline_of : Bytes → List Bytes → Option Baseline
baseline_of [] previous = none
baseline_of (c ∷ cs) previous = some (c ∷ cs, previous)

unfoldable pub baseline : Option DnsOverrideRecord → Option Baseline
unfolding baseline_of
baseline none = none
baseline (some r) = baseline_of r.interface r.previous

pre_record : Option Baseline → (servers : List Bytes) → Epoch → DnsOverrideRecord
pre_record none servers epoch = record {
  interface = [];
  previous = [];
  applied = servers;
  runtime_epoch = epoch;
  owner_generation = none;
  state = DnsOverrideState.applied;
}
pre_record (some (interface, previous)) servers epoch = record {
  interface = interface;
  previous = previous;
  applied = servers;
  runtime_epoch = epoch;
  owner_generation = none;
  state = DnsOverrideState.applied;
}

-- The read-back under a baseline; `none` where the interface changed.
read_back : Option Baseline → DnsOverrideRecord → Option DnsOverrideRecord
read_back none r = some r
read_back (some (interface, previous)) r =
    if bytes_eq r.interface interface then some (record r { previous = previous }) else none

module _ (h : Host) where
  open h use {Document}

  abbrev pub Wanted : Type 0
  Wanted = Option (List Bytes × Epoch)

  recorded : Option DnsOverrideRecord → Result (Unit {0}) → Tx h (Result (Unit {0}))
  recorded r (ok u) s = (record s { dns_record = r }, ok tt)
  recorded r (err e) s = (s, err e)

  -- `persist_dns_record`.
  pub persist_dns_record : Option DnsOverrideRecord → Tx h (Result (Unit {0}))
  unfolding recorded
  persist_dns_record r = do written ← call h (write_record r); recorded r written

  restored : Awaited (Result (Unit {0})) → Tx h (Unit {0})
  unfolding persist_dns_record
  restored (some (ok u)) = persist_dns_record none >> return tt
  restored (some (err e)) = return tt
  restored none = return tt

  -- The record is marked before the restore, which is not held up by a failure to do so.
  restore_from : Option DnsOverrideRecord → Tx h (Unit {0})
  unfolding persist_dns_record restored
  restore_from none = return tt
  restore_from (some r) = do
    persist_dns_record (some (record r { state = DnsOverrideState.restore_pending }))
    answer ← call h (restore_dns r)
    restored answer

  -- Nothing is done without a controller.
  with_controller : Bool → Tx h (Unit {0}) → Tx h (Unit {0})
  with_controller true m = m
  with_controller false m = return tt

  -- `dns_restore`.
  pub dns_restore : Tx h (Unit {0})
  unfolding restore_from with_controller
  dns_restore = with_controller h.has_dns (λ s. restore_from s.dns_record s)

  wanted_by : Active h → InstanceStatus → Wanted
  wanted_by a status =
      if is_ended status.state then none else elim (h.desired_dns a.plan.effective_document) [
        | none ↦ none
        | some servers ↦ some (servers, h.epoch_of a.instance)
      ]

  desired : Option (Active h) → Tx h Wanted
  unfolding wanted_by
  desired none = return none
  desired (some a) = do status ← call h (observe a.instance); return (wanted_by a status)

  keep_read_back : Option DnsOverrideRecord → Tx h (Unit {0})
  unfolding persist_dns_record
  keep_read_back none = return tt
  keep_read_back (some r) = persist_dns_record (some r) >> return tt

  applied : Option Baseline → Awaited (Result DnsOverrideRecord) → Tx h (Unit {0})
  unfolding keep_read_back read_back
  applied base (some (ok r)) = keep_read_back (read_back base r)
  applied base (some (err e)) = return tt
  applied base none = return tt

  apply_recorded :
      Option Baseline → (servers : List Bytes) → Epoch → Result (Unit {0}) → Tx h (Unit {0})
  unfolding applied
  apply_recorded base servers epoch (ok u) = do
    answer ← call h (apply_dns servers epoch)
    applied base answer
  apply_recorded base servers epoch (err e) = return tt

  override : Option Baseline → Wanted → Tx h (Unit {0})
  unfolding dns_restore persist_dns_record apply_recorded pre_record
  override base none = dns_restore
  override base (some (servers, epoch)) = do
    written ← persist_dns_record (some (pre_record base servers epoch))
    apply_recorded base servers epoch written

  override_over : Wanted → Tx h (Unit {0})
  unfolding override baseline
  override_over wanted s = override (baseline s.dns_record) wanted s

  converge : Tx h (Unit {0})
  unfolding desired override_over
  converge = do wanted ← λ s. desired s.current s; override_over wanted

  -- `dns_converge`.
  pub dns_converge : Tx h (Unit {0})
  unfolding converge with_controller
  dns_converge = with_controller h.has_dns converge
