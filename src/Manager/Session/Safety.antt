-- ===== src/Manager/Session/Safety.antt =====
-- No core is lost: every core that may be alive is the active one, one that the running transaction
-- holds, or of a quarantined epoch.
use clash_nyanpasu_service.Shared.{
  ◌≡◌, ◌≢◌, refl, ◌∙◌, sym, ap, ◌⊎◌, inl, inr, Bool, true, false, none, some, List, [], ◌∷◌, arith,
  Bool-cases,
}
use clash_nyanpasu_service.Failure.{Epoch}
use clash_nyanpasu_service.Manager.Quarantine.{held}
use clash_nyanpasu_service.Manager.Effects.{Result, ok, err, EpochPlan, Host, is_unconfirmed}
use clash_nyanpasu_service.Manager.Session.{Active, Session, Tx, launch, stop_instance, install}
use clash_nyanpasu_service.Manager.Session.Quiet.{Quiet, IsQuiet}

module _ (h : Host) where
  open h use {Instance, Document, MayLive, epoch_of}

  abbrev pub Among : Instance → List Instance → Type 0
  Among i [] = ⊥
  Among i (j ∷ js) = (i ≡ j) ⊎ Among i js

  abbrev pub Owned : List Instance → Session h → Instance → Type 0
  Owned open' s i =
      Among i open'
      ⊎ ((a : Active h) × (s.current ≡ some a) × (i ≡ a.instance))
      ⊎ (held (epoch_of i) s.quarantine ≡ true)

  -- `vacant` asks that the slot is empty; `held_open` are the instances that the transaction holds.
  pub record Safe (vacant : Bool) (held_open : List Instance) (s : Session h) : Type 0 where
    pub accounted : (i : Instance) → MayLive s.world i → Owned held_open s i
    pub agrees :
        (a : Active h)
        → s.current ≡ some a
        → (epoch_of a.instance ≡ a.plan.revision.epoch) × (s.last_spec ≡ some a.plan.source_spec)
    pub slot : vacant ≡ true → s.current ≡ none

  -- What a computation makes of a condition on the state.
  abbrev pub Ensures :
      {A : Type 0} → (Session h → Type 0) → Tx h A → (A → Session h → Type 0) → Type 0
  Ensures P m Q = (s : Session h) → P s → Q (m s).1 (m s).0

  pub Safe-Quiet :
      (v : Bool) (js : List Instance) (s t : Session h) → Quiet h s t → Safe v js s → Safe v js t
  Safe-Quiet v js s t q p = record {
    accounted = λ i x. elim (p.accounted i (q.live i x)) [
      | inl a ↦ inl a
      | inr (inl (a, c, e)) ↦ inr (inl (a, q.same_current ∙ c, e))
      | inr (inr k) ↦ inr (inr (ap (held (epoch_of i)) q.same_quarantine ∙ k))
    ];
    agrees = λ a c. let (x, y) = p.agrees a (sym q.same_current ∙ c) in (x, q.same_spec ∙ y);
    slot = λ e. q.same_current ∙ p.slot e;
  }

  pub quiet-Safe :
      {A : Type 0} (v : Bool) (js : List Instance) (m : Tx h A)
      → IsQuiet h m
      → Ensures (Safe v js) m (λ a. Safe v js)
  quiet-Safe v js m q s p = Safe-Quiet v js s (m s).0 (q s) p

  -- With a vacant slot all the more.
  pub Safe-any : (v : Bool) (js : List Instance) (s : Session h) → Safe v js s → Safe false js s
  Safe-any v js s p = record {
    accounted = p.accounted;
    agrees = p.agrees;
    slot = λ e. absurd (cc e);
  }

  -- A transaction may hold more than it has to, in any order.
  pub Safe-also :
      (v : Bool) (i : Instance) (js : List Instance) (s : Session h)
      → Safe v js s
      → Safe v (i ∷ js) s
  Safe-also v i js s p = record {
    accounted = λ j x. elim (p.accounted j x) [ inl a ↦ inl (inr a) | inr o ↦ inr o ];
    agrees = p.agrees;
    slot = p.slot;
  }

  pub Safe-swap :
      (v : Bool) (i j : Instance) (js : List Instance) (s : Session h)
      → Safe v (i ∷ j ∷ js) s
      → Safe v (j ∷ i ∷ js) s
  Safe-swap v i j js s p = record {
    accounted = λ k x. elim (p.accounted k x) [
      | inl (inl e) ↦ inl (inr (inl e))
      | inl (inr (inl e)) ↦ inl (inl e)
      | inl (inr (inr a)) ↦ inl (inr (inr a))
      | inr o ↦ inr o
    ];
    agrees = p.agrees;
    slot = p.slot;
  }

  -- A launch that gives an instance leaves it with the transaction.
  abbrev pub Launched : Bool → List Instance → Epoch → Result Instance → Session h → Type 0
  Launched v js epoch (ok i) t = (epoch_of i ≡ epoch) × Safe v (i ∷ js) t
  Launched v js epoch (err e) t = Safe v js t

  launch_given-Safe :
      (v : Bool) (js : List Instance) (plan : EpochPlan Document) (s : Session h)
      (r : Result Instance)
      → r ≡ (h.launch plan s.world).1
      → Safe v js s
      → Launched v js plan.revision.epoch r (record s { world = (h.launch plan s.world).0 })
  launch_given-Safe v js plan s (ok i) e p = (
    h.launch_epoch plan s.world i (sym e),
    record {
      accounted = λ j x. elim (h.launch_ok plan s.world i j (sym e) x) [
        | inl same ↦ inl (inl same)
        | inr old ↦ elim (p.accounted j old) [ inl a ↦ inl (inr a) | inr o ↦ inr o ]
      ];
      agrees = p.agrees;
      slot = p.slot;
    },
  )
  launch_given-Safe v js plan s (err f) e p = record {
    accounted = λ j x. p.accounted j (h.launch_err plan s.world f j (sym e) x);
    agrees = p.agrees;
    slot = p.slot;
  }

  pub launch-Launched :
      (v : Bool) (js : List Instance) (plan : EpochPlan Document)
      → Ensures (Safe v js) (launch h plan) (Launched v js plan.revision.epoch)
  unfolding launch
  launch-Launched v js plan s p = launch_given-Safe v js plan s _ refl p

  -- A stop that is confirmed, or that fails for another reason, takes the instance off the
  -- transaction; one that is not confirmed leaves it there.
  abbrev pub Stopped : Bool → Instance → List Instance → Result (Unit {0}) → Session h → Type 0
  Stopped v i js (ok u) t = Safe v js t
  Stopped v i js (err e) t =
      ((is_unconfirmed e ≡ true) × Safe v (i ∷ js) t) ⊎ ((is_unconfirmed e ≡ false) × Safe v js t)

  dropped-Safe :
      (v : Bool) (i : Instance) (js : List Instance) (s : Session h)
      → Safe v (i ∷ js) s
      → ((j : Instance) → MayLive (h.stop_and_confirm_dead i s.world).0 j → j ≢ i)
      → Safe v js (record s { world = (h.stop_and_confirm_dead i s.world).0 })
  dropped-Safe v i js s p dead = record {
    accounted = λ j x. elim (p.accounted j (h.stop_lem i s.world j x)) [
      | inl (inl same) ↦ absurd (dead j x same)
      | inl (inr a) ↦ inl a
      | inr o ↦ inr o
    ];
    agrees = p.agrees;
    slot = p.slot;
  }

  stop_given-Safe :
      (v : Bool) (i : Instance) (js : List Instance) (s : Session h) (r : Result (Unit {0}))
      → r ≡ (h.stop_and_confirm_dead i s.world).1
      → Safe v (i ∷ js) s
      → Stopped v i js r (record s { world = (h.stop_and_confirm_dead i s.world).0 })
  stop_given-Safe v i js s (ok u) e p = dropped-Safe v i js s p (h.stop_ok i s.world u (sym e))
  stop_given-Safe v i js s (err f) e p = elim (Bool-cases (is_unconfirmed f)) [
    | inl t ↦ inl (
      t,
      record {
        accounted = λ j x. p.accounted j (h.stop_lem i s.world j x);
        agrees = p.agrees;
        slot = p.slot;
      },
    )
    | inr t ↦ inr (t, dropped-Safe v i js s p (h.stop_err i s.world f (sym e) t))
  ]

  pub stop_instance-Stopped :
      (v : Bool) (i : Instance) (js : List Instance)
      → Ensures (Safe v (i ∷ js)) (stop_instance h i) (Stopped v i js)
  unfolding stop_instance
  stop_instance-Stopped v i js s p = stop_given-Safe v i js s _ refl p

  pub install-Safe :
      (i : Instance) (plan : EpochPlan Document) (js : List Instance) (s : Session h)
      → epoch_of i ≡ plan.revision.epoch
      → Safe true (i ∷ js) s
      → Safe false js (install h i plan s).0
  unfolding install
  install-Safe i plan js s e p = record {
    accounted = λ j x. elim (p.accounted j x) [
      | inl (inl same) ↦ inr (inl (record { instance = i; plan = plan }, refl, same))
      | inl (inr a) ↦ inl a
      | inr (inl (a, c, same)) ↦ absurd (cc (c, p.slot refl))
      | inr (inr k) ↦ inr (inr k)
    ];
    agrees = λ a c. (ground (arith), ground (arith));
    slot = λ t. absurd (cc t);
  }

  pub install_current :
      (i : Instance) (plan : EpochPlan Document) (s : Session h)
      → (install h i plan s).0.current ≡ some (record { instance = i; plan = plan })
  unfolding install
  install_current i plan s = refl

  pub launch_current :
      (plan : EpochPlan Document) (s : Session h) → (launch h plan s).0.current ≡ s.current
  unfolding launch
  launch_current plan s = refl
