-- ===== src/Manager/Launch/Settling.antt =====
-- How a transaction ends: what a success and each way to fail leave of the cores and the slot.
use clash_nyanpasu_service.Shared.{◌≡◌, ◌∙◌, ◌⊎◌, inl, inr, Bool, true, false, some, List, [], ◌∷◌}
use clash_nyanpasu_service.Failure.{Epoch, Error}
use clash_nyanpasu_service.Manager.Effects.{
  Result, ok, err, is_unconfirmed, EpochPlan, Host, cleanup,
}
use clash_nyanpasu_service.Manager.Session.{Active, Session, install}
use clash_nyanpasu_service.Manager.Session.Quiet.{
  Quiet, call-IsQuiet, publish_terminal_error-IsQuiet,
}
use clash_nyanpasu_service.Manager.Session.Safety.{
  Safe, Safe-Quiet, Safe-any, Stopped, install-Safe, install_current,
}
use clash_nyanpasu_service.Manager.Session.Latching.{
  Pending, Unproven, latch_quarantine-Safe, unproven_lem,
}
use clash_nyanpasu_service.Manager.Launch.{
  fail_published, fail_cleaned, fail_latched, stop_failure, fail_stop,
}

module _ (h : Host) where
  open h use {Instance, Document, epoch_of}

  -- A success that fills the slot.
  abbrev pub Fills : {A : Type 0} → (A → Active h → Type 0) → Result A → Session h → Type 0
  Fills good (ok a) s = (x : Active h) × (s.current ≡ some x) × good a x
  Fills good (err e) s = Unit

  -- What a transaction leaves: no core is lost, and a success fills the slot with a plan that is good.
  pub record Settled {A : Type 0} (good : A → Active h → Type 0) (r : Result A) (s : Session h)
      : Type 0 where
    pub safe : Safe h false [] s
    pub fills : Fills good r s

  -- A transaction that ends in an error.
  pub failed-Settled :
      {A : Type 0} (good : A → Active h → Type 0) (v : Bool) (e : Error) (s : Session h)
      → Safe h v [] s
      → Settled good (err e) s
  failed-Settled good v e s p = record { safe = Safe-any h v [] s p; fills = tt }

  pub fail_published-Safe :
      (A : Type 0) (v : Bool) (js : List Instance) (e : Error) (s : Session h)
      → Safe h v js s
      → Safe h v js (fail_published h {A = A} e s).0
  unfolding fail_published
  fail_published-Safe A v js e s p = Safe-Quiet h v js _ _ (publish_terminal_error-IsQuiet h e s) p

  pub fail_published-Settled :
      {A : Type 0} (good : A → Active h → Type 0) (v : Bool) (e : Error) (s : Session h)
      → Safe h v [] s
      → Settled good (fail_published h {A = A} e s).1 (fail_published h {A = A} e s).0
  unfolding fail_published
  fail_published-Settled good v e s p =
      failed-Settled good v e _ (Safe-Quiet h v [] _ _ (publish_terminal_error-IsQuiet h e s) p)

  pub fail_cleaned-Settled :
      {A : Type 0} (good : A → Active h → Type 0) (v : Bool) (epoch : Epoch) (e : Error)
      (s : Session h)
      → Safe h v [] s
      → Settled good (fail_cleaned h {A = A} epoch e s).1 (fail_cleaned h {A = A} epoch e s).0
  unfolding fail_cleaned
  fail_cleaned-Settled good v epoch e s p =
      fail_published-Settled good v e _ (Safe-Quiet h v [] _ _ (call-IsQuiet h (cleanup epoch) s) p)

  pub fail_latched-Settled :
      {A : Type 0} (good : A → Active h → Type 0) (v : Bool) (epoch : Epoch) (e : Error)
      (s : Session h)
      → Pending h v [] epoch s
      → Settled good (fail_latched h {A = A} epoch e s).1 (fail_latched h {A = A} epoch e s).0
  unfolding fail_latched
  fail_latched-Settled good v epoch e s p =
      failed-Settled good v _ _ (latch_quarantine-Safe h v [] epoch e s p)

  pub fail_latched-Safe :
      (A : Type 0) (v : Bool) (js : List Instance) (epoch : Epoch) (e : Error) (s : Session h)
      → Pending h v js epoch s
      → Safe h v js (fail_latched h {A = A} epoch e s).0
  unfolding fail_latched
  fail_latched-Safe A v js epoch e s p = latch_quarantine-Safe h v js epoch e s p

  -- After a stop that failed, with the vacancy of the slot.
  stop_failure-Safe :
      (A : Type 0) (v b : Bool) (js : List Instance) (epoch : Epoch) (e : Error) (s : Session h)
      → ((b ≡ true) × Pending h v js epoch s) ⊎ ((b ≡ false) × Safe h v js s)
      → Safe h v js (stop_failure h {A = A} b epoch e s).0
  unfolding stop_failure
  stop_failure-Safe A v b js epoch e s p =
      unproven_lem h v b js epoch s (λ c. Safe h v js (stop_failure h {A = A} c epoch e s).0) p
        (fail_latched-Safe A v js epoch e s) (fail_published-Safe A v js e s)

  pub fail_stop-Safe :
      (A : Type 0) (v : Bool) (js : List Instance) (epoch : Epoch) (e : Error) (s : Session h)
      → Unproven h v js epoch e s
      → Safe h v js (fail_stop h {A = A} epoch e s).0
  unfolding fail_stop
  fail_stop-Safe A v js epoch e s p = stop_failure-Safe A v (is_unconfirmed e) js epoch e s p

  stop_failure-Fills :
      {A : Type 0} (good : A → Active h → Type 0) (b : Bool) (epoch : Epoch) (e : Error)
      (s : Session h)
      → Fills good (stop_failure h {A = A} b epoch e s).1 (stop_failure h {A = A} b epoch e s).0
  unfolding stop_failure fail_latched fail_published
  stop_failure-Fills good true epoch e s = tt
  stop_failure-Fills good false epoch e s = tt

  pub fail_stop-Settled :
      {A : Type 0} (good : A → Active h → Type 0) (v : Bool) (epoch : Epoch) (e : Error)
      (s : Session h)
      → Unproven h v [] epoch e s
      → Settled good (fail_stop h {A = A} epoch e s).1 (fail_stop h {A = A} epoch e s).0
  unfolding fail_stop
  fail_stop-Settled good v epoch e s p = record {
    safe = Safe-any h v [] _ (stop_failure-Safe _ v (is_unconfirmed e) [] epoch e s p);
    fills = stop_failure-Fills good _ epoch e s;
  }

  -- An instance that the transaction stopped is dead, or of an epoch that is then latched.
  pub Stopped-Pending :
      (v : Bool) (i : Instance) (js : List Instance) (epoch : Epoch) (e : Error) (s : Session h)
      → epoch_of i ≡ epoch
      → Stopped h v i js (err e) s
      → Pending h v js epoch s
  Stopped-Pending v i js epoch e s q (inl (t, p)) = inr (i, q, p)
  Stopped-Pending v i js epoch e s q (inr (t, p)) = inl p

  pub installed-Settled :
      {A : Type 0} (good : A → Active h → Type 0) (i : Instance) (plan : EpochPlan Document) (a : A)
      (s : Session h)
      → epoch_of i ≡ plan.revision.epoch
      → good a (record { instance = i; plan = plan })
      → Safe h true (i ∷ []) s
      → Settled good (ok a) (install h i plan s).0
  installed-Settled good i plan a s q g p = record {
    safe = install-Safe h i plan [] s q p;
    fills = (record { instance = i; plan = plan }, install_current h i plan s, g);
  }

  weaken-Fills :
      {A : Type 0} (good better : A → Active h → Type 0) (r : Result A) (s : Session h)
      → ((a : A) (x : Active h) → better a x → good a x)
      → Fills better r s
      → Fills good r s
  weaken-Fills good better (ok a) s k (x, c, g) = (x, c, k a x g)
  weaken-Fills good better (err e) s k u = tt

  pub weaken-Settled :
      {A : Type 0} (good better : A → Active h → Type 0) (r : Result A) (s : Session h)
      → ((a : A) (x : Active h) → better a x → good a x)
      → Settled better r s
      → Settled good r s
  weaken-Settled good better r s k p = record {
    safe = p.safe;
    fills = weaken-Fills good better r s k p.fills;
  }

  pub Settled-Quiet :
      {A : Type 0} (good : A → Active h → Type 0) (r : Result A) (s t : Session h)
      → Quiet h s t
      → Settled good r s
      → Settled good r t
  Settled-Quiet good (ok a) s t q p =
      let (x, c, g) = p.fills in
      record { safe = Safe-Quiet h false [] s t q p.safe; fills = (x, q.same_current ∙ c, g) }
  Settled-Quiet good (err e) s t q p = record {
    safe = Safe-Quiet h false [] s t q p.safe;
    fills = tt;
  }
