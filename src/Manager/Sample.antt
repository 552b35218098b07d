-- ===== src/Manager/Sample.antt =====
-- A host to run the manager on: its cores are numbers, each of its own epoch, and a stop is confirmed or
-- not, as a parameter says.
use clash_nyanpasu_service.Shared.{
  ℕ, ◌≡◌, ◌≢◌, refl, sym, ap, ◌∙◌, Bytes, codes, Bool, true, false, ◌||◌, ◌==◌, none, some, List,
  [], ◌∷◌, ◌⊎◌, inl, inr, arith, if◌then◌else◌,
}
use clash_nyanpasu_service.Failure.{Error}
use clash_nyanpasu_service.Control.Command.{LocalIpcPolicy}
use clash_nyanpasu_service.Manager.Status.{InstanceState}
use clash_nyanpasu_service.Manager.Effects.{
  Result, ok, err, is_unconfirmed, Prepared, ConfigChange, DnsOverrideState, DnsOverrideRecord, Ask,
  Answer, Host, observe, process_id, wait_ready, probe, build_client, now, load, binary_found,
  run_args, check_config, resolve, prepare_full, prepare_bootstrap, stage, commit_new,
  commit_replace, backup, restore, remove_backup, cleanup, put_config, patch_config, verify_config,
  stop_sink, apply_dns, restore_dns, write_record,
}

pub record Machine : Type 0 where
  pub alive : List ℕ
  pub overridden : Bool

unfoldable pub lives : ℕ → List ℕ → Bool
lives i [] = false
lives i (j ∷ js) = j == i || lives i js

pub without : ℕ → List ℕ → List ℕ
without i [] = []
without i (j ∷ js) = let rest = without i js in if j == i then rest else j ∷ rest

lives-without :
    (i j : ℕ) (js : List ℕ) → lives j (without i js) ≡ true → (lives j js ≡ true) × (j ≢ i)
unfolding lives without
lives-without i j [] e = absurd (cc e)
lives-without i j (k ∷ js) e = ground (arith, lives-without i j js)

abbrev pub Question : Type 0
Question = Ask ℕ Bytes (Unit {0})

abbrev pub prepared : Prepared Bytes
prepared = record {
  bytes = codes "mode: rule";
  controller = record { host = codes "127.0.0.1:9090"; secret = none };
  source_hash = codes "a";
  effective_hash = codes "b";
  document = codes "rule";
}

abbrev pub own_record : DnsOverrideRecord
own_record = record {
  interface = codes "en0";
  previous = codes "1.1.1.1" ∷ [];
  applied = [];
  runtime_epoch = 1;
  owner_generation = none;
  state = DnsOverrideState.applied;
}

unfoldable pub reply : (a : Question) → Machine → Answer a
unfolding lives
reply (observe i) m = record {
  instance_id = some i;
  state = if lives i m.alive then InstanceState.running 42 else InstanceState.starting;
  health = none;
}
reply (process_id i) m = 42
reply (wait_ready i) m = ok tt
reply (probe i) m = some true
reply (build_client i) m = ok tt
reply now m = 1000
reply (load path) m =
    ok (record { source_path = path; bytes = codes "mode: rule"; document = codes "rule" })
reply (binary_found path) m = true
reply (run_args spec) m = ok tt
reply (check_config spec) m = ok tt
reply (resolve spec policy) m = ok (record { capabilities = []; runtime = []; local_ipc = true })
reply (prepare_full s e r l) m = ok prepared
reply (prepare_bootstrap s e r l) m = ok prepared
reply (stage e bytes) m = ok (codes "staged.yaml")
reply (commit_new s e) m = ok (codes "runtime.yaml")
reply (commit_replace s e) m = ok none
reply (backup e g) m = ok (codes "backup.yaml")
reply (restore b) m = ok none
reply (remove_backup b) m = ok tt
reply (cleanup e) m = ok tt
reply (put_config i path) m = some (ok tt)
reply (patch_config i p) m = some (ok tt)
reply (verify_config i p) m = some (ok true)
reply stop_sink m = tt
reply (apply_dns servers epoch) m = some (ok own_record)
reply (restore_dns r) m = some (ok tt)
reply (write_record r) m = ok tt

-- An override is put in place and taken away; the cores stay as they are.
unfoldable pub after : Question → Machine → Machine
after (apply_dns servers epoch) m = record m { overridden = true }
after (restore_dns r) m = record m { overridden = false }
after _ m = m

pub after_alive : (a : Question) (m : Machine) → (after a m).alive ≡ m.alive
unfolding after
after_alive (observe i) m = refl
after_alive (process_id i) m = refl
after_alive (wait_ready i) m = refl
after_alive (probe i) m = refl
after_alive (build_client i) m = refl
after_alive now m = refl
after_alive (load path) m = refl
after_alive (binary_found path) m = refl
after_alive (run_args spec) m = refl
after_alive (check_config spec) m = refl
after_alive (resolve spec policy) m = refl
after_alive (prepare_full s e r l) m = refl
after_alive (prepare_bootstrap s e r l) m = refl
after_alive (stage e bytes) m = refl
after_alive (commit_new s e) m = refl
after_alive (commit_replace s e) m = refl
after_alive (backup e g) m = refl
after_alive (restore b) m = refl
after_alive (remove_backup b) m = refl
after_alive (cleanup e) m = refl
after_alive (put_config i path) m = refl
after_alive (patch_config i p) m = refl
after_alive (verify_config i p) m = refl
after_alive stop_sink m = refl
after_alive (apply_dns servers epoch) m = refl
after_alive (restore_dns r) m = refl
after_alive (write_record r) m = refl

pub stopped : Bool → ℕ → Machine → Machine × Result (Unit {0})
stopped true i m = (record m { alive = without i m.alive }, ok tt)
stopped false i m = (m, err (Error.stop_unconfirmed (codes "no proof of death")))

pub stopped_kept :
    (c : Bool) (i j : ℕ) (m : Machine)
    → lives j (stopped c i m).0.alive ≡ true
    → lives j m.alive ≡ true
unfolding stopped
stopped_kept true i j m e = (lives-without i j m.alive e).0
stopped_kept false i j m e = e

pub stopped_dead :
    (c : Bool) (i j : ℕ) (m : Machine) (u : Unit {0})
    → (stopped c i m).1 ≡ ok u
    → lives j (stopped c i m).0.alive ≡ true
    → j ≢ i
unfolding stopped
stopped_dead true i j m u r e = (lives-without i j m.alive e).1
stopped_dead false i j m u r e = absurd (cc r)

pub stopped_failed :
    (c : Bool) (i : ℕ) (m : Machine) (e : Error)
    → (stopped c i m).1 ≡ err e
    → is_unconfirmed e ≡ false
    → ⊥
unfolding stopped is_unconfirmed
stopped_failed true i m e r f = absurd (cc r)
stopped_failed false i m e r f = absurd (cc (r, f))

pub lives_cons : (i j : ℕ) (js : List ℕ) → lives j (i ∷ js) ≡ true → (j ≡ i) ⊎ (lives j js ≡ true)
unfolding lives
lives_cons i j js e = ground (arith)

pub ok_injective : (i j : ℕ) → ok i ≡ ok j → i ≡ j
ok_injective i j e = cc e

pub ok_apart : (i : ℕ) (e : Error) → ok i ≡ err e → ⊥
ok_apart i e r = absurd (cc r)

-- The host whose stops are confirmed, or not.
abbrev pub host : (confirmed : Bool) → Host
host confirmed = record {
  World = Machine;
  Instance = ℕ;
  Document = Bytes;
  Patch = Unit {0};
  ask = λ a m. (after a m, reply a m);
  launch = λ p m. (record m { alive = p.revision.epoch ∷ m.alive }, ok p.revision.epoch);
  stop_and_confirm_dead = stopped confirmed;
  epoch_of = λ i. i;
  controller_of = λ i. record { host = codes "127.0.0.1:9090"; secret = none };
  pid_path = λ e. codes "core.pid";
  has_dns = true;
  desired_dns = λ d. some (codes "198.18.0.2" ∷ []);
  default_settings = record { policy = LocalIpcPolicy.prefer; keep_http_controller = false };
  access = none;
  classify = λ old desired. ok ConfigChange.reload;
  restoration = λ bootstrap full. ok none;
  overlap_block = λ d. none;
  has_http = λ d. false;
  to_string = λ e. codes "error";
  MayLive = λ m i. lives i m.alive ≡ true;
  ask_lem = λ a m i e. sym (ap (lives i) (after_alive a m)) ∙ e;
  launch_ok = λ p m i j r e. elim (lives_cons p.revision.epoch j m.alive e) [
    | inl same ↦ inl (same ∙ ok_injective p.revision.epoch i r)
    | inr old ↦ inr old
  ];
  launch_epoch = λ p m i r. sym (ok_injective p.revision.epoch i r);
  launch_err = λ p m e j r f. absurd (ok_apart p.revision.epoch e r);
  stop_lem = λ i m j e. stopped_kept confirmed i j m e;
  stop_ok = λ i m u r j e. stopped_dead confirmed i j m u r e;
  stop_err = λ i m e r f j x. absurd (stopped_failed confirmed i m e r f);
}
