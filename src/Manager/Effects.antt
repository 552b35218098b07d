-- ===== src/Manager/Effects.antt =====
-- What a transaction of the manager is made of: results, state passing, and the host. The host is all
-- that crates/nyanpasu-core-manager/src/manager calls: the backend that launches and stops a core
-- (runtime/mod.rs), the configuration pipeline and the runtime store (config), the capability probe
-- and the HTTP client. What it does is a parameter, with what the trait's documentation says of the
-- processes that may be alive.
use clash_nyanpasu_service.Shared.{ℕ, ◌≡◌, ◌≢◌, Bytes, Bool, true, false, Option, List, ◌⊎◌}
use clash_nyanpasu_service.Failure.{Epoch, Error}
use clash_nyanpasu_service.Control.Command.{ConfigRevision, LocalIpcSettings, LocalIpcPolicy}
use clash_nyanpasu_service.Control.Execute.{InstanceSpec}
use clash_nyanpasu_service.Manager.Status.{InstanceStatus}

pub data Result (A : Type 0) : Type 0 where
  ok : A → Result A
  err : Error → Result A

-- A computation with a state.
abbrev pub M : Type 0 → Type 0 → Type 0
M S A = S → S × A

infixl 5 ◌>>=◌ ◌>>◌
abbrev pub ◌>>=◌ : {S A B : Type 0} → M S A → (A → M S B) → M S B
◌>>=◌ m f s = f (m s).1 (m s).0

abbrev pub ◌>>◌ : {S A B : Type 0} → M S A → M S B → M S B
◌>>◌ m k s = k (m s).0

abbrev pub return : {S A : Type 0} → A → M S A
return a s = (s, a)

unfoldable pub is_unconfirmed : Error → Bool
is_unconfirmed (Error.stop_unconfirmed m) = true
is_unconfirmed _ = false

-- `ResolvedController`; the address of a controller is its text.
pub record ResolvedController : Type 0 where
  pub host : Bytes
  pub secret : Option Bytes

-- `EpochPlan`, over the type of a configuration document.
pub record EpochPlan (Document : Type 0) : Type 0 where
  pub source_spec : InstanceSpec
  pub effective_spec : InstanceSpec
  pub controller : ResolvedController
  pub revision : ConfigRevision
  pub capabilities : List Bytes
  pub runtime_features : List Bytes
  pub source_document : Document
  pub effective_document : Document

-- `ConfigSnapshot`, as the manager reads it.
pub record Snapshot (Document : Type 0) : Type 0 where
  pub source_path : Bytes
  pub bytes : Bytes
  pub document : Document

pub record ResolvedFeatures : Type 0 where
  pub capabilities : List Bytes
  pub runtime : List Bytes
  pub local_ipc : Bool

-- What `prepare_full` and `prepare_bootstrap` give.
pub record Prepared (Document : Type 0) : Type 0 where
  pub bytes : Bytes
  pub controller : ResolvedController
  pub source_hash : Bytes
  pub effective_hash : Bytes
  pub document : Document

-- `ConfigChange`; a patch comes with the projection that verifies it.
pub data ConfigChange (Patch : Type 0) : Type 0 where
  noop reload switch : ConfigChange Patch
  patch : Patch → ConfigChange Patch

pub data OverlapBlock : Type 0 where
  dns_listen inbound_surface : OverlapBlock

pub data DnsOverrideState : Type 0 where
  applied restore_pending : DnsOverrideState

-- `DnsOverrideRecord`; a server is its text.
pub record DnsOverrideRecord : Type 0 where
  pub interface : Bytes
  pub previous : List Bytes
  pub applied : List Bytes
  pub runtime_epoch : ℕ
  pub owner_generation : Option ℕ
  pub state : DnsOverrideState

-- A call of the host that neither launches nor stops a core. A path stands for a staged file, and for
-- a backup.
pub data Ask (Instance Document Patch : Type 0) : Type 0 where
  observe process_id wait_ready probe build_client : Instance → Ask Instance Document Patch
  now : Ask Instance Document Patch
  load binary_found : (path : Bytes) → Ask Instance Document Patch
  run_args check_config : InstanceSpec → Ask Instance Document Patch
  resolve : InstanceSpec → LocalIpcPolicy → Ask Instance Document Patch
  prepare_full prepare_bootstrap :
      Snapshot Document → Epoch → ResolvedFeatures → LocalIpcSettings → Ask Instance Document Patch
  stage : Epoch → Bytes → Ask Instance Document Patch
  commit_new commit_replace : (staged : Bytes) → Epoch → Ask Instance Document Patch
  backup : Epoch → (generation : ℕ) → Ask Instance Document Patch
  restore remove_backup : (backup : Bytes) → Ask Instance Document Patch
  cleanup : Epoch → Ask Instance Document Patch
  put_config : Instance → (path : Bytes) → Ask Instance Document Patch
  patch_config verify_config : Instance → Patch → Ask Instance Document Patch
  stop_sink : Ask Instance Document Patch
  apply_dns : (servers : List Bytes) → Epoch → Ask Instance Document Patch
  restore_dns : DnsOverrideRecord → Ask Instance Document Patch
  -- The file part of `persist_dns_record`.
  write_record : Option DnsOverrideRecord → Ask Instance Document Patch

-- `none` for a call that the deadline of the transaction cuts off.
abbrev pub Awaited : Type 0 → Type 0
Awaited A = Option A

abbrev pub Answer : {Instance Document Patch : Type 0} → Ask Instance Document Patch → Type 0
Answer (observe i) = InstanceStatus
Answer (process_id i) = ℕ
Answer (wait_ready i) = Result (Unit {0})
Answer (probe i) = Awaited Bool
Answer (build_client i) = Result (Unit {0})
Answer now = ℕ
Answer {Document = D} (load path) = Result (Snapshot D)
Answer (binary_found path) = Bool
Answer (run_args spec) = Result (Unit {0})
Answer (check_config spec) = Result (Unit {0})
Answer (resolve spec policy) = Result ResolvedFeatures
Answer {Document = D} (prepare_full s e r l) = Result (Prepared D)
Answer {Document = D} (prepare_bootstrap s e r l) = Result (Prepared D)
Answer (stage e bytes) = Result Bytes
Answer (commit_new s e) = Result Bytes
Answer (commit_replace s e) = Result (Option Bytes)
Answer (backup e g) = Result Bytes
Answer (restore b) = Result (Option Bytes)
Answer (remove_backup b) = Result (Unit {0})
Answer (cleanup e) = Result (Unit {0})
Answer (put_config i path) = Awaited (Result (Unit {0}))
Answer (patch_config i p) = Awaited (Result (Unit {0}))
Answer (verify_config i p) = Awaited (Result Bool)
Answer stop_sink = Unit {0}
Answer (apply_dns servers epoch) = Awaited (Result DnsOverrideRecord)
Answer (restore_dns r) = Awaited (Result (Unit {0}))
Answer (write_record r) = Result (Unit {0})

pub record Host : Type 1 where
  pub World : Type 0
  pub Instance : Type 0
  pub Document : Type 0
  pub Patch : Type 0
  pub ask : (a : Ask Instance Document Patch) → M World (Answer a)
  pub launch : EpochPlan Document → M World (Result Instance)
  pub stop_and_confirm_dead : Instance → M World (Result (Unit {0}))
  pub epoch_of : Instance → Epoch
  pub controller_of : Instance → ResolvedController
  pub pid_path : Epoch → Bytes
  pub has_dns : Bool
  -- `DnsController::desired`.
  pub desired_dns : Document → Option (List Bytes)
  pub default_settings : LocalIpcSettings
  -- `supports_local_ipc` of the injected controller access, if there is one.
  pub access : Option Bool
  pub classify : EpochPlan Document → EpochPlan Document → Result (ConfigChange Patch)
  pub restoration : Prepared Document → Prepared Document → Result (Option Patch)
  pub overlap_block : Document → Option OverlapBlock
  pub has_http : Document → Bool
  pub to_string : Error → Bytes
  -- The core of an instance may be alive: it was launched, and its death is not proven.
  pub MayLive : World → Instance → Type 0
  pub ask_lem :
      (a : Ask Instance Document Patch) (w : World) (i : Instance)
      → MayLive (ask a w).0 i
      → MayLive w i
  -- A launch starts at most the instance that it gives, and that one reports its plan's epoch.
  pub launch_ok :
      (p : EpochPlan Document) (w : World) (i j : Instance)
      → (launch p w).1 ≡ ok i
      → MayLive (launch p w).0 j
      → (j ≡ i) ⊎ MayLive w j
  pub launch_epoch :
      (p : EpochPlan Document) (w : World) (i : Instance)
      → (launch p w).1 ≡ ok i
      → epoch_of i ≡ p.revision.epoch
  pub launch_err :
      (p : EpochPlan Document) (w : World) (e : Error) (j : Instance)
      → (launch p w).1 ≡ err e
      → MayLive (launch p w).0 j
      → MayLive w j
  pub stop_lem :
      (i : Instance) (w : World) (j : Instance)
      → MayLive (stop_and_confirm_dead i w).0 j
      → MayLive w j
  pub stop_ok :
      (i : Instance) (w : World) (u : Unit {0})
      → (stop_and_confirm_dead i w).1 ≡ ok u
      → (j : Instance) → MayLive (stop_and_confirm_dead i w).0 j
      → j ≢ i
  -- `StopUnconfirmed` is the only answer where a proof of death is not available.
  pub stop_err :
      (i : Instance) (w : World) (e : Error)
      → (stop_and_confirm_dead i w).1 ≡ err e
      → is_unconfirmed e ≡ false
      → (j : Instance) → MayLive (stop_and_confirm_dead i w).0 j
      → j ≢ i
