-- ===== src/Manager/Quarantine/Tests.antt =====
-- Recovery on a host whose one process that is still alive has no pid record.
use clash_nyanpasu_service.Shared.{
  ℕ, suc, ◌≡◌, refl, ◌⊎◌, Bytes, codes, true, false, Option, none, [], ◌∷◌, if◌then◌else◌, ◌==◌,
  All,
}
use clash_nyanpasu_service.Failure.{Epoch, Error}
use clash_nyanpasu_service.Manager.Quarantine.{
  Quarantine, held, Reaped, killed, not_found, recovered, refused, recover_quarantine,
}
use clash_nyanpasu_service.Manager.Quarantine.Records.{Once}
use clash_nyanpasu_service.Manager.Quarantine.Recovery.{recover_quarantine-outcome}
use clash_nyanpasu_service.Manager.Quarantine.Unproven.{is_dead, recover_quarantine-unproven}

abbrev two : Quarantine
two =
    record { epoch = 3; reason = codes "stop timed out"; death_proven = false }
    ∷ record { epoch = 5; reason = codes "stop timed out"; death_proven = false }
    ∷ []

-- The host counts its calls.
abbrev reap : Epoch → ℕ → ℕ × Reaped
reap e n = (suc n, if e == 3 then not_found else killed)

abbrev cleanup : Epoch → ℕ → ℕ × Option Bytes
cleanup e n = (suc n, none)

abbrev settle : ℕ → ℕ
settle n = suc n

two-Once : Once two
unfolding held
two-Once = (refl, (refl, tt))

recover_quarantine-outcome_example :
    (((recover_quarantine reap cleanup settle 0 two).2 ≡ recovered)
      × ((recover_quarantine reap cleanup settle 0 two).1 ≡ []))
    ⊎ ((e : Epoch) × (reason : Bytes) × ((recover_quarantine reap cleanup settle 0 two).2
          ≡ refused (Error.manager_quarantined e reason))
        × (held e (recover_quarantine reap cleanup settle 0 two).1 ≡ true))
recover_quarantine-outcome_example = recover_quarantine-outcome reap cleanup settle 0 two two-Once

still_unproven : All (λ q. q.epoch ≡ 3 → q.death_proven ≡ false) two
still_unproven = (λ e. refl, (λ e. refl, tt))

quarantined : held 3 two ≡ true
unfolding held
quarantined = refl

no_record : (h : ℕ) → is_dead (reap 3 h).1 ≡ false
no_record h = refl

recover_quarantine-unproven_example : held 3 (recover_quarantine reap cleanup settle 0 two).1 ≡ true
recover_quarantine-unproven_example =
    recover_quarantine-unproven reap cleanup settle 0 two 3 no_record still_unproven quarantined
