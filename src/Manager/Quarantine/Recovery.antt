-- ===== src/Manager/Quarantine/Recovery.antt =====
-- How a recovery ends.
use clash_nyanpasu_service.Shared.{
  ◌≡◌, ◌≢◌, refl, sym, ap, ◌∙◌, ◌⊎◌, inl, inr, Bytes, true, false, Option, List, [], ◌∷◌, arith,
  length, ◌<◌, ◌≤◌,
}
use clash_nyanpasu_service.Failure.{Epoch, Error}
use clash_nyanpasu_service.Manager.Quarantine.{
  Quarantine, held, Reaped, recovered, refused, Progress, recover_entry, recover_entries, refusal,
  join, conclude, recover_quarantine,
}
use clash_nyanpasu_service.Manager.Quarantine.Records.{Once, none_held}
use clash_nyanpasu_service.Manager.Quarantine.Rounds.{failed, cleared, recover_entry-Round}

nonempty : (ts : List Bytes) → ts ≢ [] → 0 < length ts
nonempty [] ne = absurd (ne refl)
nonempty (t ∷ ts) ne = omega arith

module _ {Host : Type 0} (reap : Epoch → Host → Host × Reaped)
    (cleanup : Epoch → Host → Host × Option Bytes) (settle : Host → Host) where
  failures_grow :
      (entries : Quarantine) (p : Progress reap cleanup settle)
      → length p.failures ≤ length (recover_entries reap cleanup settle entries p).failures
  unfolding recover_entries
  failures_grow [] p = omega arith
  failures_grow (entry ∷ entries) p =
      let ih = failures_grow entries (recover_entry reap cleanup settle entry p) in
      elim (recover_entry-Round reap cleanup settle entry p) [
        | failed h n ↦ omega (arith, ih, n)
        | cleared h f ↦ omega (arith, ih, ap length f)
      ]

  -- An epoch that no entry of the loop names stays where it is.
  held_beyond :
      (entries : Quarantine) (x : Epoch) (p : Progress reap cleanup settle)
      → held x entries ≡ false
      → held x (recover_entries reap cleanup settle entries p).quarantine ≡ held x p.quarantine
  unfolding recover_entries held
  held_beyond [] x p no' = refl
  held_beyond (entry ∷ entries) x p no' =
      let ih = held_beyond entries x (recover_entry reap cleanup settle entry p) (ground arith) in
      elim (recover_entry-Round reap cleanup settle entry p) [
        | failed h n ↦ ih ∙ h x
        | cleared h f ↦ ih ∙ ground (arith, h x)
      ]

  -- Without a new failure, every entry of the loop is gone after it.
  all_cleared :
      (entries : Quarantine) (p : Progress reap cleanup settle)
      → length (recover_entries reap cleanup settle entries p).failures ≡ length p.failures
      → ((x : Epoch) → held x p.quarantine ≡ true → held x entries ≡ true)
      → (x : Epoch) → held x (recover_entries reap cleanup settle entries p).quarantine ≡ false
  unfolding recover_entries held
  all_cleared [] p n within x = ground (arith, within x)
  all_cleared (entry ∷ entries) p n within x =
      let q = recover_entry reap cleanup settle entry p in
      elim (recover_entry-Round reap cleanup settle entry p) [
        | failed h m ↦ absurd (omega (arith, n, m, failures_grow entries q))
        | cleared h f ↦
            all_cleared entries q (n ∙ sym (ap length f)) (λ y t. ground (arith, h y, within y)) x
      ]

  -- With a new failure, one entry of the loop is still quarantined after it.
  one_left :
      (entries : Quarantine) (p : Progress reap cleanup settle)
      → Once entries
      → length p.failures < length (recover_entries reap cleanup settle entries p).failures
      → ((x : Epoch) → held x entries ≡ true → held x p.quarantine ≡ true)
      → (x : Epoch) × (held x (recover_entries reap cleanup settle entries p).quarantine ≡ true)
  unfolding recover_entries held
  one_left [] p o n has = absurd (omega (arith, n))
  one_left (entry ∷ entries) p o n has =
      let q = recover_entry reap cleanup settle entry p in
      elim (recover_entry-Round reap cleanup settle entry p) [
        | failed h m ↦ (
          entry.epoch,
          held_beyond entries entry.epoch q o.0 ∙ (h entry.epoch ∙ has entry.epoch (ground arith)),
        )
        | cleared h f ↦
            one_left entries q o.1 (omega (arith, n, ap length f))
              (λ y t. ground (arith, h y, has y, o.0))
      ]

  refusal-held :
      (qs : Quarantine) (x : Epoch) (t : Bytes) (ts : List Bytes)
      → held x qs ≡ true
      → (e : Epoch) × (reason : Bytes) × (refusal reap cleanup settle qs (t ∷ ts)
          ≡ refused (Error.manager_quarantined e reason))
        × (held e qs ≡ true)
  unfolding refusal held
  refusal-held [] x t ts h = absurd (ground arith)
  refusal-held (q ∷ qs) x t ts h = (q.epoch, join (t ∷ ts), refl, ground arith)

  conclude-cases :
      (host : Host) (qs : Quarantine) (failures : List Bytes)
      → (failures ≡ [] → qs ≡ [])
      → (failures ≢ [] → (x : Epoch) × (held x qs ≡ true))
      → let (after, left, result) =
          conclude reap cleanup settle
            (record { host = host; quarantine = qs; failures = failures }) in
        ((result ≡ recovered) × (left ≡ []))
        ⊎ ((e : Epoch) × (reason : Bytes) × (result ≡ refused (Error.manager_quarantined e reason))
            × (held e left ≡ true))
  unfolding conclude
  conclude-cases host qs [] empty some' = inl (refl, empty refl)
  conclude-cases host qs (t ∷ ts) empty some' =
      let (x, h) = some' (λ e. cc e) in inr (refusal-held qs x t ts h)

  -- Recovery of a quarantine that names each epoch once either succeeds and leaves nothing
  -- quarantined, or refuses with an error that names an epoch that is still quarantined; its `expect`
  -- never panics, whatever the host answers.
  pub recover_quarantine-outcome :
      (host : Host) (qs : Quarantine)
      → Once qs
      → let (after, left, result) = recover_quarantine reap cleanup settle host qs in
        ((result ≡ recovered) × (left ≡ []))
        ⊎ ((e : Epoch) × (reason : Bytes) × (result ≡ refused (Error.manager_quarantined e reason))
            × (held e left ≡ true))
  unfolding recover_quarantine
  recover_quarantine-outcome host [] o = inl (refl, refl)
  recover_quarantine-outcome host (q ∷ qs) o =
      let p : Progress reap cleanup settle = record {
        host = host;
        quarantine = q ∷ qs;
        failures = [];
      } in
      let end = recover_entries reap cleanup settle (q ∷ qs) p in
      conclude-cases end.host end.quarantine end.failures
        (λ e. none_held end.quarantine (all_cleared (q ∷ qs) p (ap length e) (λ x h. h)))
        (λ ne. one_left (q ∷ qs) p o (nonempty end.failures ne) (λ x h. h))
