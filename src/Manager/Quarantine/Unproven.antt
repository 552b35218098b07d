-- ===== src/Manager/Quarantine/Unproven.antt =====
-- Recovery releases no epoch that may still live.
use clash_nyanpasu_service.Shared.{
  ◌≡◌, refl, sym, ap, ◌∙◌, subst, inl, inr, Bytes, Bool, true, false, Option, List, [], ◌∷◌, ◌==◌,
  arith, All, Bool-cases,
}
use clash_nyanpasu_service.Failure.{Epoch}
use clash_nyanpasu_service.Manager.Quarantine.{
  QuarantinedEpoch, Quarantine, held, Reaped, already_exited, killed, Progress, fail, reaped,
  recover_entry, recover_entries, conclude, recover_quarantine,
}
use clash_nyanpasu_service.Manager.Quarantine.Rounds.{failed, cleared, recover_entry-Round}

-- Whether the host proved that a process is gone.
abbrev pub is_dead : Reaped → Bool
is_dead already_exited = true
is_dead killed = true
is_dead _ = false

module _ {Host : Type 0} (reap : Epoch → Host → Host × Reaped)
    (cleanup : Epoch → Host → Host × Option Bytes) (settle : Host → Host) where
  unproven_Round :
      (entry : QuarantinedEpoch) (p : Progress reap cleanup settle)
      → ((host : Host) → is_dead (reap entry.epoch host).1 ≡ false)
      → entry.death_proven ≡ false
      → (x : Epoch)
      → held x (recover_entry reap cleanup settle entry p).quarantine ≡ held x p.quarantine
  unfolding recover_entry reaped fail
  unproven_Round entry p uncertain unproven x = ground (arith, uncertain p.host)

  unproven_stays :
      (entries : Quarantine) (p : Progress reap cleanup settle) (x : Epoch)
      → ((host : Host) → is_dead (reap x host).1 ≡ false)
      → All (λ q. q.epoch ≡ x → q.death_proven ≡ false) entries
      → held x p.quarantine ≡ true
      → held x (recover_entries reap cleanup settle entries p).quarantine ≡ true
  unfolding recover_entries
  unproven_stays [] p x uncertain unproven h = h
  unproven_stays (entry ∷ entries) p x uncertain unproven h =
      unproven_stays entries (recover_entry reap cleanup settle entry p) x uncertain unproven.1
        (elim (Bool-cases (entry.epoch == x)) [
          | inl same ↦
              let e : entry.epoch ≡ x = ground arith in
              unproven_Round entry p
                (λ host. subst (λ i. is_dead (reap i host).1 ≡ false) (sym e) (uncertain host))
                (unproven.0 e) x
              ∙ h
          | inr other ↦ elim (recover_entry-Round reap cleanup settle entry p) [
            | failed k n ↦ k x ∙ h
            | cleared k f ↦ ground (arith, k x)
          ]
        ])

  conclude-quarantine :
      (host : Host) (qs : Quarantine) (failures : List Bytes)
      → (conclude reap cleanup settle
          (record { host = host; quarantine = qs; failures = failures })).1
        ≡ qs
  unfolding conclude
  conclude-quarantine host qs [] = refl
  conclude-quarantine host qs (t ∷ ts) = refl

  -- A quarantined epoch whose death is not proven, and which the host cannot prove dead in any state,
  -- stays quarantined: recovery never releases it, whatever its clean-up would answer.
  pub recover_quarantine-unproven :
      (host : Host) (qs : Quarantine) (x : Epoch)
      → ((h : Host) → is_dead (reap x h).1 ≡ false)
      → All (λ q. q.epoch ≡ x → q.death_proven ≡ false) qs
      → held x qs ≡ true
      → held x (recover_quarantine reap cleanup settle host qs).1 ≡ true
  unfolding recover_quarantine held
  recover_quarantine-unproven host [] x uncertain unproven h = absurd (ground arith)
  recover_quarantine-unproven host (q ∷ qs) x uncertain unproven h =
      let p : Progress reap cleanup settle = record {
        host = host;
        quarantine = q ∷ qs;
        failures = [];
      } in
      let end = recover_entries reap cleanup settle (q ∷ qs) p in
      ap (held x) (conclude-quarantine end.host end.quarantine end.failures)
      ∙ unproven_stays (q ∷ qs) p x uncertain unproven h
