-- ===== src/Manager/Lifecycle/Runs.antt =====
-- Runs of the manager between two recoveries: the methods but `recover_quarantine` one after another, as
-- the control lock orders them. `recover_quarantine` works on a host of its own in Manager/Quarantine.
use clash_nyanpasu_service.Shared.{true, false, Option, List, [], ◌∷◌}
use clash_nyanpasu_service.Failure.{RevisionId}
use clash_nyanpasu_service.Control.Execute.{InstanceSpec}
use clash_nyanpasu_service.Manager.Effects.{Host}
use clash_nyanpasu_service.Manager.Session.{Session}
use clash_nyanpasu_service.Manager.Session.Safety.{Safe, Safe-any}
use clash_nyanpasu_service.Manager.Stopping.{stop, shutdown}
use clash_nyanpasu_service.Manager.Stopping.Vacant.{stop-Vacant, shutdown-Vacant}
use clash_nyanpasu_service.Manager.Lifecycle.{start, switch, restart, apply_config, reconcile}
use clash_nyanpasu_service.Manager.Lifecycle.Outcomes.{
  start-Settled, switch-Settled, restart-Settled, apply_config-Done, reconcile-Done,
}

-- A call of a method that starts, changes or stops the core.
pub data Method : Type 0 where
  start_call switch_call : InstanceSpec → Method
  restart_call stop_call shutdown_call : Method
  apply_call reconcile_call : InstanceSpec → Option RevisionId → Method

module _ (h : Host) where
  serve : Method → Session h → Session h
  serve (start_call spec) s = (start h spec s).0
  serve (switch_call spec) s = (switch h spec s).0
  serve restart_call s = (restart h s).0
  serve stop_call s = (stop h s).0
  serve shutdown_call s = (shutdown h s).0
  serve (apply_call spec expected) s = (apply_config h spec expected s).0
  serve (reconcile_call spec expected) s = (reconcile h spec expected s).0

  pub serve_all : List Method → Session h → Session h
  unfolding serve
  serve_all [] s = s
  serve_all (m ∷ ms) s = serve_all ms (serve m s)

  -- Every core that may be alive is the active one or of a quarantined epoch, and the slot agrees
  -- with the spec that is kept.
  abbrev pub NoneLost : Session h → Type 0
  NoneLost = Safe h false []

  serve-NoneLost : (m : Method) (s : Session h) → NoneLost s → NoneLost (serve m s)
  unfolding serve
  serve-NoneLost (start_call spec) s p = (start-Settled h spec s p).safe
  serve-NoneLost (switch_call spec) s p = (switch-Settled h spec s p).safe
  serve-NoneLost restart_call s p = (restart-Settled h s p).safe
  serve-NoneLost stop_call s p = Safe-any h true [] _ (stop-Vacant h s p)
  serve-NoneLost shutdown_call s p = Safe-any h true [] _ (shutdown-Vacant h s p)
  serve-NoneLost (apply_call spec expected) s p = (apply_config-Done h spec expected s p).safe
  serve-NoneLost (reconcile_call spec expected) s p = (reconcile-Done h spec expected s p).safe

  -- Where every core that may be alive is the active one or of a quarantined epoch, this still holds
  -- after any calls of `start`, `switch`, `restart`, `stop`, `shutdown`, `apply_config` and `reconcile`, in
  -- any order and on every error path, for a host that keeps the laws of the record `Host`: a core that
  -- may be alive was so before or is the one a launch gave, and a launch that fails leaves no new one.
  pub serve_all-NoneLost :
      (ms : List Method) (s : Session h) → NoneLost s → NoneLost (serve_all ms s)
  unfolding serve_all
  serve_all-NoneLost [] s p = p
  serve_all-NoneLost (m ∷ ms) s p = serve_all-NoneLost ms _ (serve-NoneLost m s p)
