-- ===== src/Manager/Quarantine/Rounds.antt =====
-- One round of the recovery loop.
use clash_nyanpasu_service.Shared.{
  ◌≡◌, refl, ap, ◌∙◌, Bytes, Bool, true, false, not, ◌&&◌, Option, none, some, [], ◌∷◌,
  if◌then◌else◌, ◌==◌, arith, length, length-append, ◌+◌,
}
use clash_nyanpasu_service.Failure.{Epoch}
use clash_nyanpasu_service.Manager.Quarantine.{
  QuarantinedEpoch, held, prove, Reaped, already_exited, killed, not_found, reap_failed, Progress,
  fail, cleaned, clean_up, reaped, recover_entry,
}
use clash_nyanpasu_service.Manager.Quarantine.Records.{held-prove, held-retain}

module _ {Host : Type 0} (reap : Epoch → Host → Host × Reaped)
    (cleanup : Epoch → Host → Host × Option Bytes) (settle : Host → Host) where
  -- One round: the entry failed and stays, with its failure noted; or its clean-up succeeded, and it
  -- goes.
  pub data Round (entry : QuarantinedEpoch) (p q : Progress reap cleanup settle) : Type 0 where
    failed :
        ((x : Epoch) → held x q.quarantine ≡ held x p.quarantine)
        → length q.failures ≡ length p.failures + 1
        → Round entry p q
    cleared :
        ((x : Epoch) → held x q.quarantine ≡ not (entry.epoch == x) && held x p.quarantine)
        → q.failures ≡ p.failures
        → Round entry p q

  fail-Round :
      (entry : QuarantinedEpoch) (tail : Bytes) (p q : Progress reap cleanup settle)
      → ((x : Epoch) → held x q.quarantine ≡ held x p.quarantine)
      → q.failures ≡ p.failures
      → Round entry p (fail reap cleanup settle entry tail q)
  unfolding fail
  fail-Round entry tail p q same f =
      failed same (omega (arith, length-append q.failures (_ ∷ []), ap length f))

  cleaned-Round :
      (entry : QuarantinedEpoch) (p q : Progress reap cleanup settle) (r : Host × Option Bytes)
      → ((x : Epoch) → held x q.quarantine ≡ held x p.quarantine)
      → q.failures ≡ p.failures
      → Round entry p (cleaned reap cleanup settle entry q r)
  unfolding cleaned
  cleaned-Round entry p q (host, some error) same f = fail-Round entry _ p _ same f
  cleaned-Round entry p q (host, none) same f =
      cleared
        (λ x.
          held-retain entry.epoch x q.quarantine ∙ ap (λ b. not (entry.epoch == x) && b) (same x))
        f

  reaped-Round :
      (entry : QuarantinedEpoch) (p : Progress reap cleanup settle) (r : Host × Reaped)
      → Round entry p (reaped reap cleanup settle entry p r)
  unfolding reaped clean_up
  reaped-Round entry p (host, already_exited) =
      cleaned-Round entry p (record p { host = host; quarantine = prove entry.epoch p.quarantine })
        (cleanup entry.epoch host) (λ x. held-prove entry.epoch x p.quarantine) refl
  reaped-Round entry p (host, killed) =
      cleaned-Round entry p (record p { host = host; quarantine = prove entry.epoch p.quarantine })
        (cleanup entry.epoch host) (λ x. held-prove entry.epoch x p.quarantine) refl
  reaped-Round entry p (host, not_found) = fail-Round entry _ p _ (λ x. refl) refl
  reaped-Round entry p (host, reap_failed error) = fail-Round entry _ p _ (λ x. refl) refl

  if-Round :
      (b : Bool) (entry : QuarantinedEpoch) (p x y : Progress reap cleanup settle)
      → Round entry p x
      → Round entry p y
      → Round entry p (if b then x else y)
  if-Round true entry p x y rx ry = rx
  if-Round false entry p x y rx ry = ry

  pub recover_entry-Round :
      (entry : QuarantinedEpoch) (p : Progress reap cleanup settle)
      → Round entry p (recover_entry reap cleanup settle entry p)
  unfolding recover_entry clean_up
  recover_entry-Round entry p =
      if-Round entry.death_proven entry p _ _
        (cleaned-Round entry p p (cleanup entry.epoch p.host) (λ x. refl) refl)
        (reaped-Round entry p (reap entry.epoch p.host))
