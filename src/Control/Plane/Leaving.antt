-- ===== src/Control/Plane/Leaving.antt =====
-- The steps of an executor that has left its loop: `drain` of the control plane, from its `close` on.
use clash_nyanpasu_service.Control.Channel.{Channel}
use clash_nyanpasu_service.Control.Plane.{Plane, Step, closes, drains, drained, Reach, here, next}

module _ (c : Channel) where
  -- A step that this executor takes by itself; no other thread has part in it.
  abbrev pub IsOwn : {p q : Plane c} → Step c p q → Type 0
  IsOwn (closes exit at e) = Unit
  IsOwn (drains exit w s at got e) = Unit
  IsOwn (drained exit at got e) = Unit
  IsOwn _ = ⊥

  -- A run of such steps and of no others.
  pub data OwnRun (p : Plane c) : Plane c → Type 0 where
    begins : OwnRun p p
    goes_on : {q r : Plane c} → OwnRun p q → (s : Step c q r) → IsOwn s → OwnRun p r

  pub OwnRun-Reach : {p q : Plane c} → OwnRun p q → Reach c p q
  OwnRun-Reach begins = here
  OwnRun-Reach (goes_on r s own) = next (OwnRun-Reach r) s

  pub OwnRun-one : {p q : Plane c} → (s : Step c p q) → IsOwn s → OwnRun p q
  OwnRun-one s own = goes_on begins s own

  pub OwnRun-trans : {p q r : Plane c} → OwnRun p q → OwnRun q r → OwnRun p r
  OwnRun-trans a begins = a
  OwnRun-trans a (goes_on b s own) = goes_on (OwnRun-trans a b) s own
