-- ===== src/Manager/Status/Updates.antt =====
-- What an update from an instance does to the published status.
use clash_nyanpasu_service.Shared.{
  ℕ, ◌≡◌, ◌≢◌, refl, ap, sym, ◌⊎◌, inl, inr, true, false, not, Option, none, some, Bool-cases,
  Option-cases, arith,
}
use clash_nyanpasu_service.Failure.{Epoch}
use clash_nyanpasu_service.Manager.Status.{
  HealthStatus, InstanceStatus, CoreState, CoreStatus, core_state_discrete, health_discrete,
  id_discrete, decided, instance_core_state, epoch_is, HealthState, target, is_health, fresh_health,
  carry, default_health_for_state, merge, refresh, apply_epoch_status,
}

-- What the subscribers see after an update: the instance's state, health and identity, with the rest
-- of the description kept, and the time of the change moved exactly when the lifecycle state differs.
pub record Shows (before after : CoreStatus) (state : CoreState) (i : InstanceStatus) (now : ℕ)
    : Type 0 where
  pub state_shown : after.state ≡ state
  pub health_shown : after.health ≡ i.health
  pub instance_shown : after.instance_id ≡ i.instance_id
  pub spec_kept : after.spec ≡ before.spec
  pub controller_kept : after.controller ≡ before.controller
  pub revision_kept : after.revision ≡ before.revision
  pub time_shown :
      ((before.state ≡ state) × (after.changed_at ≡ before.changed_at))
      ⊎ ((before.state ≢ state) × (after.changed_at ≡ now))

same_lifecycle :
    (s : CoreStatus) (state : CoreState) (i : InstanceStatus) (now : ℕ)
    → s.state ≡ state
    → Shows s
        (record s {
          state = state;
          health = i.health;
          instance_id = i.instance_id;
          changed_at = s.changed_at;
        })
        state
        i
        now
same_lifecycle s state i now a = record {
  state_shown = refl;
  health_shown = refl;
  instance_shown = refl;
  spec_kept = refl;
  controller_kept = refl;
  revision_kept = refl;
  time_shown = inl (a, refl);
}

merge-Shows :
    (s : CoreStatus) (state : CoreState) (i : InstanceStatus) (now : ℕ) (a : Dec (s.state ≡ state))
    (b : Dec (s.health ≡ i.health)) (c : Dec (s.instance_id ≡ i.instance_id))
    → let out = merge (not (decided a)) (not (decided b)) (decided c) s state i now in
      Shows s out.0 state i now × ((out.1 ≡ true) ⊎ (out.0 ≡ s))
unfolding merge
merge-Shows s state i now (yes a) (yes b) (yes c) = (
  record {
    state_shown = a;
    health_shown = b;
    instance_shown = c;
    spec_kept = refl;
    controller_kept = refl;
    revision_kept = refl;
    time_shown = inl (a, refl);
  },
  inr refl,
)
merge-Shows s state i now (yes a) (yes b) (no c) = (same_lifecycle s state i now a, inl refl)
merge-Shows s state i now (yes a) (no b) c = (same_lifecycle s state i now a, inl refl)
merge-Shows s state i now (no a) b c = (
  record {
    state_shown = refl;
    health_shown = refl;
    instance_shown = refl;
    spec_kept = refl;
    controller_kept = refl;
    revision_kept = refl;
    time_shown = inr (a, refl);
  },
  inl refl,
)

-- An update of the status's own epoch shows the instance's lifecycle state, health and identity, keeps
-- the description, and moves the time exactly when the lifecycle state differs; when it is not sent to
-- the subscribers it changed nothing. An update of any other epoch changes nothing and is not sent.
pub apply_epoch_status-Shows :
    (s : CoreStatus) (epoch : Epoch) (i : InstanceStatus) (now : ℕ)
    → let out = apply_epoch_status s epoch i now in
      ((epoch_is s.revision epoch ≡ false) × (out ≡ (s, false)))
      ⊎ ((epoch_is s.revision epoch ≡ true)
          × Shows s out.0 (instance_core_state epoch i.state) i now
          × ((out.1 ≡ true) ⊎ (out.0 ≡ s)))
unfolding apply_epoch_status refresh
apply_epoch_status-Shows s epoch i now = elim (Bool-cases (epoch_is s.revision epoch)) [
  | inl e ↦
      let state = instance_core_state epoch i.state in
      let (shows, sent) =
        merge-Shows s state i now (core_state_discrete s.state state)
          (health_discrete s.health i.health) (id_discrete s.instance_id i.instance_id) in
      inr (e, rw (apply_epoch_status, e) shows, rw (apply_epoch_status, e) sent)
  | inr e ↦ inl (e, rw (apply_epoch_status, e) refl)
]

is_health-eq : (a b : HealthState) → is_health a b ≡ true → a ≡ b
unfolding is_health
is_health-eq a b h = ground arith

carry-cases :
    (h : HealthState) (now : ℕ) (previous : Option HealthStatus)
    → ((p : HealthStatus) × (previous ≡ some p) × (p.state ≡ h) × (carry h now previous ≡ p))
      ⊎ (carry h now previous ≡ fresh_health h now)
unfolding carry
carry-cases h now none = inr refl
carry-cases h now (some p) = elim (Bool-cases (is_health p.state h)) [
  | inl e ↦
      let same = is_health-eq p.state h e in
      inl (p, refl, same, rw (carry, e) (ap (λ x. record p { state = x }) (sym same)))
  | inr e ↦ inr (rw (carry, e) refl)
]

-- The health that a lifecycle state gives by default: none while the core stops or is stopped, else
-- the state that the lifecycle stands for, with the previous record kept when it was in that state
-- and with fresh counters when it was not.
pub default_health_for_state-cases :
    (previous : Option HealthStatus) (state : CoreState) (now : ℕ)
    → ((target state ≡ none) × (default_health_for_state previous state now ≡ none))
      ⊎ ((h : HealthState) × (target state ≡ some h)
          × (((p : HealthStatus) × (previous ≡ some p)
                × (p.state ≡ h)
                × (default_health_for_state previous state now ≡ some p))
              ⊎ (default_health_for_state previous state now ≡ some (fresh_health h now))))
unfolding default_health_for_state
default_health_for_state-cases previous state now = elim (Option-cases (target state)) [
  | inl e ↦ inl (e, rw (default_health_for_state, e) refl)
  | inr (h, e) ↦ elim (carry-cases h now previous) [
    | inl (p, q, same, kept) ↦
        inr (h, e, inl (p, q, same, rw (default_health_for_state, e) (ap some kept)))
    | inr fresh ↦ inr (h, e, inr (rw (default_health_for_state, e) (ap some fresh)))
  ]
]
