-- ===== src/Manager/Quarantine/Records.antt =====
-- The set of quarantined epochs, and what recording, proving and dropping do to it.
use clash_nyanpasu_service.Shared.{
  ◌≡◌, ◌≢◌, refl, inl, inr, Bytes, true, false, not, ◌&&◌, ◌||◌, [], ◌∷◌, ◌==◌, arith, Bool-cases,
}
use clash_nyanpasu_service.Failure.{Epoch}
use clash_nyanpasu_service.Manager.Quarantine.{Quarantine, held, record_quarantine, prove, retain}

-- No epoch is quarantined twice.
abbrev pub Once : Quarantine → Type 0
Once [] = Unit
Once (q ∷ qs) = (held q.epoch qs ≡ false) × Once qs

pub held-record_quarantine :
    (e x : Epoch) (reason : Bytes) (qs : Quarantine)
    → held x (record_quarantine e reason qs) ≡ held x qs || e == x
unfolding held record_quarantine
held-record_quarantine e x reason [] = ground arith
held-record_quarantine e x reason (q ∷ qs) = ground (arith, held-record_quarantine e x reason qs)

Once-record_quarantine :
    (e : Epoch) (reason : Bytes) (qs : Quarantine) → Once qs → Once (record_quarantine e reason qs)
unfolding held record_quarantine
Once-record_quarantine e reason [] o = (refl, tt)
Once-record_quarantine e reason (q ∷ qs) o = elim (Bool-cases (q.epoch == e)) [
  | inl t ↦ rw t o
  | inr t ↦ rw t (
    ground (arith, o.0, held-record_quarantine e q.epoch reason qs),
    Once-record_quarantine e reason qs o.1,
  )
]

-- Recording an epoch leaves each epoch quarantined once, and an epoch x is quarantined afterwards
-- exactly when it was before or is the one recorded.
pub record_quarantine-Once :
    (e x : Epoch) (reason : Bytes) (qs : Quarantine)
    → Once qs
    → Once (record_quarantine e reason qs)
      × (held x (record_quarantine e reason qs) ≡ held x qs || e == x)
record_quarantine-Once e x reason qs o =
    (Once-record_quarantine e reason qs o, held-record_quarantine e x reason qs)

pub held-prove : (e x : Epoch) (qs : Quarantine) → held x (prove e qs) ≡ held x qs
unfolding held prove
held-prove e x [] = refl
held-prove e x (q ∷ qs) = ground (arith, held-prove e x qs)

pub held-retain : (e x : Epoch) (qs : Quarantine) → held x (retain e qs) ≡ not (e == x) && held x qs
unfolding held retain
held-retain e x [] = ground arith
held-retain e x (q ∷ qs) = ground (arith, held-retain e x qs)

pub none_held : (qs : Quarantine) → ((x : Epoch) → held x qs ≡ false) → qs ≡ []
unfolding held
none_held [] h = refl
none_held (q ∷ qs) h = absurd (ground (arith, h q.epoch))

pub some_held : (x : Epoch) (qs : Quarantine) → held x qs ≡ true → qs ≢ []
unfolding held
some_held x [] h e = absurd (ground arith)
some_held x (q ∷ qs) h e = absurd (cc e)
