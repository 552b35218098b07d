-- ===== src/Manager/InPlace.antt =====
-- Changing the configuration of a core that runs: `reconcile_in_place` and `patch_and_verify` of
-- crates/nyanpasu-core-manager/src/manager/apply.rs, under the deadline that their callers set.
use clash_nyanpasu_service.Shared.{Bool, true, false, none, some}
use clash_nyanpasu_service.Manager.Effects.{
  Result, ok, err, ◌>>=◌, return, Awaited, EpochPlan, ConfigChange, Host, build_client,
  patch_config, put_config, verify_config, probe,
}
use clash_nyanpasu_service.Manager.Session.{Active, Tx, call}
use clash_nyanpasu_service.Manager.Session.Quiet.{IsQuiet, Quiet-refl, call-IsQuiet, ◌then◌}

in_time : Awaited Bool → Bool
in_time none = false
in_time (some b) = b

module _ (h : Host) where
  open h use {Instance, Document, Patch}

  -- `probe_now`, and whether it is healthy.
  pub probe_healthy : Instance → Tx h Bool
  unfolding in_time
  probe_healthy i = do healthy ← call h (probe i); return (in_time healthy)

  verified : Instance → Awaited (Result Bool) → Tx h Bool
  unfolding probe_healthy
  verified i (some (ok true)) = probe_healthy i
  verified i (some (ok false)) = return false
  verified i (some (err e)) = return false
  verified i none = return false

  -- An error of the PATCH is uncertain, so that the configuration is read back all the same.
  patched : Instance → Patch → Awaited (Result (Unit {0})) → Tx h Bool
  unfolding verified
  patched i patch (some r) = do answer ← call h (verify_config i patch); verified i answer
  patched i patch none = return false

  patch_with : Instance → Patch → Result (Unit {0}) → Tx h Bool
  unfolding patched
  patch_with i patch (ok u) = do sent ← call h (patch_config i patch); patched i patch sent
  patch_with i patch (err e) = return false

  -- `patch_and_verify`.
  pub patch_and_verify : Instance → Patch → Tx h Bool
  unfolding patch_with
  patch_and_verify i patch = do client ← call h (build_client i); patch_with i patch client

  reloaded : Instance → Awaited (Result (Unit {0})) → Tx h Bool
  unfolding probe_healthy
  reloaded i (some (ok u)) = probe_healthy i
  reloaded i (some (err e)) = return false
  reloaded i none = return false

  reload_with : Instance → EpochPlan Document → Result (Unit {0}) → Tx h Bool
  unfolding reloaded
  reload_with i desired (ok u) = do
    sent ← call h (put_config i desired.revision.runtime_path)
    reloaded i sent
  reload_with i desired (err e) = return false

  -- `reconcile_in_place`.
  pub reconcile_in_place : Active h → ConfigChange Patch → EpochPlan Document → Tx h Bool
  unfolding patch_and_verify reload_with
  reconcile_in_place current (ConfigChange.patch patch) desired =
      patch_and_verify current.instance patch
  reconcile_in_place current ConfigChange.switch desired = return false
  reconcile_in_place current ConfigChange.noop desired = return true
  reconcile_in_place current ConfigChange.reload desired = do
    client ← call h (build_client current.instance)
    reload_with current.instance desired client

  pub probe_healthy-IsQuiet : (i : Instance) → IsQuiet h (probe_healthy i)
  unfolding probe_healthy
  probe_healthy-IsQuiet i s = call-IsQuiet h (probe i) s

  verified-IsQuiet : (i : Instance) (a : Awaited (Result Bool)) → IsQuiet h (verified i a)
  unfolding verified
  verified-IsQuiet i (some (ok true)) s = probe_healthy-IsQuiet i s
  verified-IsQuiet i (some (ok false)) s = Quiet-refl h s
  verified-IsQuiet i (some (err e)) s = Quiet-refl h s
  verified-IsQuiet i none s = Quiet-refl h s

  patched-IsQuiet :
      (i : Instance) (p : Patch) (a : Awaited (Result (Unit {0}))) → IsQuiet h (patched i p a)
  unfolding patched
  patched-IsQuiet i p (some r) s =
      ◌then◌ h (call-IsQuiet h (verify_config i p) s) (verified-IsQuiet i _ _)
  patched-IsQuiet i p none s = Quiet-refl h s

  patch_with-IsQuiet :
      (i : Instance) (p : Patch) (r : Result (Unit {0})) → IsQuiet h (patch_with i p r)
  unfolding patch_with
  patch_with-IsQuiet i p (ok u) s =
      ◌then◌ h (call-IsQuiet h (patch_config i p) s) (patched-IsQuiet i p _ _)
  patch_with-IsQuiet i p (err e) s = Quiet-refl h s

  pub patch_and_verify-IsQuiet : (i : Instance) (p : Patch) → IsQuiet h (patch_and_verify i p)
  unfolding patch_and_verify
  patch_and_verify-IsQuiet i p s =
      ◌then◌ h (call-IsQuiet h (build_client i) s) (patch_with-IsQuiet i p _ _)

  reloaded-IsQuiet : (i : Instance) (a : Awaited (Result (Unit {0}))) → IsQuiet h (reloaded i a)
  unfolding reloaded
  reloaded-IsQuiet i (some (ok u)) s = probe_healthy-IsQuiet i s
  reloaded-IsQuiet i (some (err e)) s = Quiet-refl h s
  reloaded-IsQuiet i none s = Quiet-refl h s

  reload_with-IsQuiet :
      (i : Instance) (p : EpochPlan Document) (r : Result (Unit {0}))
      → IsQuiet h (reload_with i p r)
  unfolding reload_with
  reload_with-IsQuiet i p (ok u) s =
      ◌then◌ h (call-IsQuiet h (put_config i _) s) (reloaded-IsQuiet i _ _)
  reload_with-IsQuiet i p (err e) s = Quiet-refl h s

  pub reconcile_in_place-IsQuiet :
      (a : Active h) (change : ConfigChange Patch) (p : EpochPlan Document)
      → IsQuiet h (reconcile_in_place a change p)
  unfolding reconcile_in_place
  reconcile_in_place-IsQuiet a (ConfigChange.patch q) p s = patch_and_verify-IsQuiet a.instance q s
  reconcile_in_place-IsQuiet a ConfigChange.switch p s = Quiet-refl h s
  reconcile_in_place-IsQuiet a ConfigChange.noop p s = Quiet-refl h s
  reconcile_in_place-IsQuiet a ConfigChange.reload p s =
      ◌then◌ h (call-IsQuiet h (build_client a.instance) s) (reload_with-IsQuiet a.instance p _ _)
