-- ===== src/Manager/Status/Tests.antt =====
-- An update of the running epoch.
use clash_nyanpasu_service.Shared.{◌≡◌, ◌⊎◌, true, false, codes, none, some}
use clash_nyanpasu_service.Manager.Status.{
  InstanceState, InstanceStatus, CoreState, CoreStatus, instance_core_state, epoch_is,
  apply_epoch_status,
}
use clash_nyanpasu_service.Manager.Status.Updates.{Shows, apply_epoch_status-Shows}

abbrev running_status : CoreStatus
running_status = record {
  state = CoreState.running 4 100;
  instance_id = some 1;
  health = none;
  spec = none;
  controller = none;
  revision = some (record {
    epoch = 4;
    generation = 1;
    source_hash = codes "a";
    effective_hash = codes "b";
    runtime_path = codes "/run/config-4.yaml";
  });
  changed_at = 10;
}

abbrev crashed : InstanceStatus
crashed = record { instance_id = none; state = InstanceState.restarting 1; health = none }

apply_epoch_status-Shows_example :
    ((epoch_is running_status.revision 4 ≡ false)
      × (apply_epoch_status running_status 4 crashed 20 ≡ (running_status, false)))
    ⊎ ((epoch_is running_status.revision 4 ≡ true)
        × Shows running_status
            (apply_epoch_status running_status 4 crashed 20).0
            (instance_core_state 4 crashed.state)
            crashed
            20
        × (((apply_epoch_status running_status 4 crashed 20).1 ≡ true)
            ⊎ ((apply_epoch_status running_status 4 crashed 20).0 ≡ running_status)))
apply_epoch_status-Shows_example = apply_epoch_status-Shows running_status 4 crashed 20
