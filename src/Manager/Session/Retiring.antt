-- ===== src/Manager/Session/Retiring.antt =====
-- `retire_current` and `discard_stale`: the slot is emptied, and an unproven core is quarantined.
use clash_nyanpasu_service.Shared.{
  ◌≡◌, ◌≢◌, refl, ◌∙◌, inl, inr, Bool, true, false, Option, none, some, List, [], ◌∷◌,
}
use clash_nyanpasu_service.Manager.Effects.{Result, ok, err, EpochPlan, Host, cleanup}
use clash_nyanpasu_service.Manager.Session.{
  Active, Session, Retired, nothing, retired, unproven, retire, retire_outcome, take_current,
  retire_current, discard, discard_stale,
}
use clash_nyanpasu_service.Manager.Session.Quiet.{Quiet, call-IsQuiet}
use clash_nyanpasu_service.Manager.Session.Safety.{
  Safe, Ensures, Safe-Quiet, Stopped, stop_instance-Stopped,
}
use clash_nyanpasu_service.Manager.Session.Latching.{Unproven, latch_unconfirmed-Safe}

module _ (h : Host) where
  open h use {Instance, Document, MayLive, epoch_of}

  -- What retiring the active instance leaves: the slot is vacant, and an instance whose death is not
  -- proven is still with the transaction.
  abbrev pub AfterRetire : List Instance → Retired Document → Session h → Type 0
  AfterRetire js nothing s = Safe h true js s
  AfterRetire js (retired plan) s = Safe h true js s
  AfterRetire js (unproven epoch e) s = Unproven h true js epoch e s

  retire_outcome-AfterRetire :
      (js : List Instance) (a : Active h) (r : Result (Unit {0})) (s : Session h)
      → epoch_of a.instance ≡ a.plan.revision.epoch
      → Stopped h true a.instance js r s
      → AfterRetire js (retire_outcome h a.plan r) s
  unfolding retire_outcome
  retire_outcome-AfterRetire js a (ok u) s e p = p
  retire_outcome-AfterRetire js a (err f) s e (inl (t, p)) = inl (t, inr (a.instance, e, p))
  retire_outcome-AfterRetire js a (err f) s e (inr (t, p)) = inr (t, p)

  taken-Safe :
      (v : Bool) (js : List Instance) (s : Session h) (a : Active h)
      → s.current ≡ some a
      → Safe h v js s
      → Safe h true (a.instance ∷ js) (record s { current = none })
  taken-Safe v js s a c p = record {
    accounted = λ j x. elim (p.accounted j x) [
      | inl k ↦ inl (inr k)
      | inr (inl (b, d, same)) ↦ inl (inl (cc (c, d, same)))
      | inr (inr k) ↦ inr (inr k)
    ];
    agrees = λ b d. absurd (cc d);
    slot = λ t. refl;
  }

  vacated-Safe :
      (v : Bool) (js : List Instance) (s : Session h)
      → s.current ≡ none
      → Safe h v js s
      → Safe h true js (record s { current = none })
  vacated-Safe v js s c p = record {
    accounted = λ j x. elim (p.accounted j x) [
      | inl k ↦ inl k
      | inr (inl (b, d, same)) ↦ absurd (cc (c, d))
      | inr (inr k) ↦ inr (inr k)
    ];
    agrees = λ b d. absurd (cc d);
    slot = λ t. refl;
  }

  -- What taking the active instance leaves with the transaction.
  abbrev pub Taken : List Instance → Option (Active h) → Session h → Type 0
  Taken js none s = Safe h true js s
  Taken js (some a) s =
      (epoch_of a.instance ≡ a.plan.revision.epoch) × Safe h true (a.instance ∷ js) s

  take-Taken :
      (v : Bool) (js : List Instance) (s : Session h) (o : Option (Active h))
      → s.current ≡ o
      → Safe h v js s
      → Taken js o (record s { current = none })
  take-Taken v js s none c p = vacated-Safe v js s c p
  take-Taken v js s (some a) c p = ((p.agrees a c).0, taken-Safe v js s a c p)

  pub take_current-Taken :
      (v : Bool) (js : List Instance) → Ensures h (Safe h v js) (take_current h) (Taken js)
  unfolding take_current
  take_current-Taken v js s p = take-Taken v js s s.current refl p

  retire-AfterRetire :
      (js : List Instance) (o : Option (Active h)) (s : Session h)
      → Taken js o s
      → AfterRetire js (retire h o s).1 (retire h o s).0
  unfolding retire
  retire-AfterRetire js none s p = p
  retire-AfterRetire js (some a) s (e, p) =
      retire_outcome-AfterRetire js a _ _ e (stop_instance-Stopped h true a.instance js s p)

  pub retire_current-AfterRetire :
      (v : Bool) (js : List Instance) → Ensures h (Safe h v js) (retire_current h) (AfterRetire js)
  unfolding retire_current
  retire_current-AfterRetire v js s p = retire-AfterRetire js _ _ (take_current-Taken v js s p)

  discard-Safe :
      (js : List Instance) (r : Retired Document) (s : Session h)
      → AfterRetire js r s
      → Safe h true js (discard h r s).0
  unfolding discard
  discard-Safe js nothing s p = p
  discard-Safe js (retired plan) s p =
      Safe-Quiet h true js _ _ (call-IsQuiet h (cleanup plan.revision.epoch) s) p
  discard-Safe js (unproven epoch e) s p = latch_unconfirmed-Safe h true js epoch e s p

  pub discard_stale-Safe :
      (v : Bool) (js : List Instance)
      → Ensures h (Safe h v js) (discard_stale h) (λ r. Safe h true js)
  unfolding discard_stale
  discard_stale-Safe v js s p = discard-Safe js _ _ (retire_current-AfterRetire v js s p)

  -- The slot is held by an instance, and no core is lost.
  pub record Held (a : Active h) (s : Session h) : Type 0 where
    pub safe : Safe h false [] s
    pub slot : s.current ≡ some a

  pub Held-Quiet : (a : Active h) (s t : Session h) → Quiet h s t → Held a s → Held a t
  Held-Quiet a s t q p = record {
    safe = Safe-Quiet h false [] s t q p.safe;
    slot = q.same_current ∙ p.slot;
  }

  retire_outcome-Retired :
      (p : EpochPlan Document) (r : Result (Unit {0})) → retire_outcome h p r ≢ nothing
  unfolding retire_outcome
  retire_outcome-Retired p (ok u) e = absurd (cc e)
  retire_outcome-Retired p (err f) e = absurd (cc e)

  retire-Retired :
      (o : Option (Active h)) (a : Active h) (s : Session h)
      → o ≡ some a
      → (retire h o s).1 ≢ nothing
  unfolding retire
  retire-Retired none a s c = absurd (cc c)
  retire-Retired (some b) a s c = retire_outcome-Retired b.plan _

  -- A held slot has a core to retire: the `expect`s of the callers are met.
  pub retire_current-Retired :
      (a : Active h) (s : Session h) → s.current ≡ some a → (retire_current h s).1 ≢ nothing
  unfolding retire_current take_current
  retire_current-Retired a s c = retire-Retired s.current a _ c
