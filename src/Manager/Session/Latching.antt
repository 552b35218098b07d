-- ===== src/Manager/Session/Latching.antt =====
-- What an epoch in quarantine accounts for: `latch_quarantine` on a session.
use clash_nyanpasu_service.Shared.{
  Bytes, ◌≡◌, ap, subst, ◌⊎◌, inl, inr, Bool, true, false, List, ◌∷◌, arith,
}
use clash_nyanpasu_service.Failure.{Epoch, Error}
use clash_nyanpasu_service.Manager.Quarantine.Records.{held-record_quarantine}
use clash_nyanpasu_service.Manager.Effects.{Host, is_unconfirmed}
use clash_nyanpasu_service.Manager.Session.{
  Session, quarantine_epoch, latch_quarantine, latch_unconfirmed,
}
use clash_nyanpasu_service.Manager.Session.Quiet.{publish_quarantine-IsQuiet}
use clash_nyanpasu_service.Manager.Session.Safety.{Safe, Safe-Quiet}

module _ (h : Host) where
  open h use {Instance, Document, MayLive, epoch_of}

  quarantine_epoch-Safe :
      (v : Bool) (i : Instance) (js : List Instance) (reason : Bytes) (s : Session h)
      → Safe h v (i ∷ js) s
      → Safe h v js (quarantine_epoch h (epoch_of i) reason s).0
  unfolding quarantine_epoch
  quarantine_epoch-Safe v i js reason s p = record {
    accounted = λ j x. elim (p.accounted j x) [
      | inl (inl same) ↦ inr (
          inr (
            ground (
              arith,
              held-record_quarantine (epoch_of i) (epoch_of j) reason s.quarantine,
              ap epoch_of same,
            )))
      | inl (inr a) ↦ inl a
      | inr (inl o) ↦ inr (inl o)
      | inr (inr k) ↦ inr (
          inr
            (ground (arith, held-record_quarantine (epoch_of i) (epoch_of j) reason s.quarantine)))
    ];
    agrees = p.agrees;
    slot = p.slot;
  }

  quarantine_epoch_kept :
      (v : Bool) (js : List Instance) (epoch : Epoch) (reason : Bytes) (s : Session h)
      → Safe h v js s
      → Safe h v js (quarantine_epoch h epoch reason s).0
  unfolding quarantine_epoch
  quarantine_epoch_kept v js epoch reason s p = record {
    accounted = λ j x. elim (p.accounted j x) [
      | inl a ↦ inl a
      | inr (inl o) ↦ inr (inl o)
      | inr (inr k) ↦
          inr (inr (ground (arith, held-record_quarantine epoch (epoch_of j) reason s.quarantine)))
    ];
    agrees = p.agrees;
    slot = p.slot;
  }

  -- Safe, or safe but for one instance of an epoch, which the transaction holds.
  abbrev pub Pending : Bool → List Instance → Epoch → Session h → Type 0
  Pending v js epoch s =
      Safe h v js s ⊎ ((i : Instance) × (epoch_of i ≡ epoch) × Safe h v (i ∷ js) s)

  pub quarantine_epoch-Pending :
      (v : Bool) (js : List Instance) (epoch : Epoch) (reason : Bytes) (s : Session h)
      → Pending v js epoch s
      → Safe h v js (quarantine_epoch h epoch reason s).0
  quarantine_epoch-Pending v js epoch reason s (inl p) = quarantine_epoch_kept v js epoch reason s p
  quarantine_epoch-Pending v js epoch reason s (inr (i, e, p)) =
      subst (λ x. Safe h v js (quarantine_epoch h x reason s).0) e
        (quarantine_epoch-Safe v i js reason s p)

  pub latch_quarantine-Safe :
      (v : Bool) (js : List Instance) (epoch : Epoch) (error : Error) (s : Session h)
      → Pending v js epoch s
      → Safe h v js (latch_quarantine h epoch error s).0
  unfolding latch_quarantine
  latch_quarantine-Safe v js epoch error s p =
      Safe-Quiet h v js _ _ (publish_quarantine-IsQuiet h _ _)
        (quarantine_epoch-Pending v js epoch _ s p)

  -- A stop that failed: the epoch may be pending if the error says so.
  abbrev pub Unproven : Bool → List Instance → Epoch → Error → Session h → Type 0
  Unproven v js epoch e s =
      ((is_unconfirmed e ≡ true) × Pending v js epoch s)
      ⊎ ((is_unconfirmed e ≡ false) × Safe h v js s)

  -- The two ways to go on, by whether the error says that the stop is unconfirmed.
  pub unproven_lem :
      (v b : Bool) (js : List Instance) (epoch : Epoch) (s : Session h) (goal : Bool → Type 0)
      → ((b ≡ true) × Pending v js epoch s) ⊎ ((b ≡ false) × Safe h v js s)
      → (Pending v js epoch s → goal true)
      → (Safe h v js s → goal false)
      → goal b
  unproven_lem v true js epoch s goal (inl (t, p)) k l = k p
  unproven_lem v true js epoch s goal (inr (t, p)) k l = absurd (cc t)
  unproven_lem v false js epoch s goal (inl (t, p)) k l = absurd (cc t)
  unproven_lem v false js epoch s goal (inr (t, p)) k l = l p

  pub latch_unconfirmed-Safe :
      (v : Bool) (js : List Instance) (epoch : Epoch) (error : Error) (s : Session h)
      → Unproven v js epoch error s
      → Safe h v js (latch_unconfirmed h epoch error s).0
  unfolding latch_unconfirmed
  latch_unconfirmed-Safe v js epoch error s (inl (t, p)) =
      rw t (latch_quarantine-Safe v js epoch error s p)
  latch_unconfirmed-Safe v js epoch error s (inr (t, p)) = rw t p
