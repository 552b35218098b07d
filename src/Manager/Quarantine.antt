-- ===== src/Manager/Quarantine.antt =====
-- Epochs whose process may still live: crates/nyanpasu-core-manager/src/manager/quarantine.rs, with
-- `QuarantinedEpoch` of manager/mod.rs. What the operating system does, the reaping of a process by its
-- pid file and the removal of an epoch's artifacts, works on a state of its own, the host.
pub mod Records
pub mod Rounds
pub mod Recovery
pub mod Unproven
mod Tests
use clash_nyanpasu_service.Shared.{
  ℕ, Bytes, codes, Bool, true, false, not, ◌&&◌, ◌||◌, Option, none, some, List, [], ◌∷◌, ◌++◌,
  if◌then◌else◌, ◌==◌,
}
use clash_nyanpasu_service.Shared.Decimal.{decimal}
use clash_nyanpasu_service.Failure.{Epoch, Error}

pub record QuarantinedEpoch : Type 0 where
  pub epoch : Epoch
  pub reason : Bytes
  pub death_proven : Bool

abbrev pub Quarantine : Type 0
Quarantine = List QuarantinedEpoch

-- Whether an epoch is quarantined.
pub held : Epoch → Quarantine → Bool
held e [] = false
held e (q ∷ qs) = q.epoch == e || held e qs

-- `record_quarantine`.
pub record_quarantine : Epoch → Bytes → Quarantine → Quarantine
record_quarantine epoch reason [] =
    record { epoch = epoch; reason = reason; death_proven = false } ∷ []
record_quarantine epoch reason (q ∷ qs) =
    let rest = record_quarantine epoch reason qs in
    if q.epoch == epoch then record q { reason = reason } ∷ qs else q ∷ rest

additional : Quarantine → Bytes
additional [] = []
additional (q ∷ []) = decimal q.epoch
additional (q ∷ r ∷ qs) = decimal q.epoch ++ (codes ", " ++ additional (r ∷ qs))

unfoldable pub first_reason : QuarantinedEpoch → Quarantine → Bytes
unfolding additional
first_reason q [] = q.reason
first_reason q (r ∷ qs) =
    q.reason ++ (codes "; additional uncertain epochs: " ++ additional (q ∷ r ∷ qs))

-- `quarantine_error`; `reject_quarantine` is it as a result.
unfoldable pub quarantine_error : Quarantine → Option Error
unfolding first_reason
quarantine_error [] = none
quarantine_error (q ∷ qs) = some (Error.manager_quarantined q.epoch (first_reason q qs))

-- The `death_proven` of the first entry of an epoch.
pub prove : Epoch → Quarantine → Quarantine
prove e [] = []
prove e (q ∷ qs) =
    let rest = prove e qs in
    if q.epoch == e then record q { death_proven = true } ∷ qs else q ∷ rest

-- `retain(|quarantine| quarantine.epoch != entry.epoch)`.
pub retain : Epoch → Quarantine → Quarantine
retain e [] = []
retain e (q ∷ qs) = let rest = retain e qs in if q.epoch == e then rest else q ∷ rest

-- The result of `reap_epoch_pid_file`; an error is the text that it displays.
pub data Reaped : Type 0 where
  already_exited killed not_found : Reaped
  reap_failed : Bytes → Reaped

pub data Recovered : Type 0 where
  recovered : Recovered
  refused : Error → Recovered
  -- The `expect` on the first entry.
  panicked : Recovered

failure : QuarantinedEpoch → Bytes → Bytes
failure q tail = codes "epoch " ++ (decimal q.epoch ++ (codes ": " ++ (q.reason ++ tail)))

join : List Bytes → Bytes
join [] = []
join (t ∷ []) = t
join (t ∷ u ∷ ts) = t ++ (codes " | " ++ join (u ∷ ts))

-- `reap` and `cleanup` are the host's; a failed clean-up gives its text. `settle` publishes the stopped
-- state and restores the DNS settings.
module _ {Host : Type 0} (reap : Epoch → Host → Host × Reaped)
    (cleanup : Epoch → Host → Host × Option Bytes) (settle : Host → Host) where
  pub record Progress : Type 0 where
    pub host : Host
    pub quarantine : Quarantine
    pub failures : List Bytes

  fail : QuarantinedEpoch → Bytes → Progress → Progress
  unfolding failure
  fail entry tail p = record p { failures = p.failures ++ failure entry tail ∷ [] }

  cleaned : QuarantinedEpoch → Progress → Host × Option Bytes → Progress
  unfolding fail retain
  cleaned entry p (host, none) = record p {
    host = host;
    quarantine = retain entry.epoch p.quarantine;
  }
  cleaned entry p (host, some error) =
      fail entry (codes "; artifact cleanup failed: " ++ error) (record p { host = host })

  clean_up : QuarantinedEpoch → Progress → Progress
  unfolding cleaned
  clean_up entry p = cleaned entry p (cleanup entry.epoch p.host)

  reaped : QuarantinedEpoch → Progress → Host × Reaped → Progress
  unfolding clean_up fail prove
  reaped entry p (host, already_exited) =
      clean_up entry (record p { host = host; quarantine = prove entry.epoch p.quarantine })
  reaped entry p (host, killed) =
      clean_up entry (record p { host = host; quarantine = prove entry.epoch p.quarantine })
  reaped entry p (host, not_found) =
      fail entry (codes "; authoritative epoch pid record is unavailable")
        (record p { host = host })
  reaped entry p (host, reap_failed error) =
      fail entry (codes "; recovery failed: " ++ error) (record p { host = host })

  -- The body of the loop over the entries.
  pub recover_entry : QuarantinedEpoch → Progress → Progress
  unfolding clean_up reaped
  recover_entry entry p =
      if entry.death_proven then clean_up entry p else reaped entry p (reap entry.epoch p.host)

  pub recover_entries : Quarantine → Progress → Progress
  recover_entries [] p = p
  recover_entries (entry ∷ entries) p = recover_entries entries (recover_entry entry p)

  refusal : Quarantine → List Bytes → Recovered
  unfolding join
  refusal [] failures = panicked
  refusal (q ∷ qs) failures = refused (Error.manager_quarantined q.epoch (join failures))

  conclude : Progress → Host × Quarantine × Recovered
  unfolding refusal
  conclude p = elim p.failures [
    | [] ↦ (settle p.host, p.quarantine, recovered)
    | t ∷ ts ↦ (p.host, p.quarantine, refusal p.quarantine (t ∷ ts))
  ]

  -- `recover_quarantine`, over a copy of the quarantine.
  pub recover_quarantine : Host → Quarantine → Host × Quarantine × Recovered
  unfolding conclude
  recover_quarantine host [] = (host, [], recovered)
  recover_quarantine host (q ∷ qs) =
      conclude
        (recover_entries (q ∷ qs) (record { host = host; quarantine = q ∷ qs; failures = [] }))
