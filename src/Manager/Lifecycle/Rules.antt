-- ===== src/Manager/Lifecycle/Rules.antt =====
-- Rules for transactions with `?`, where a quiet step comes first.
use clash_nyanpasu_service.Shared.{false, []}
use clash_nyanpasu_service.Control.Execute.{InstanceSpec}
use clash_nyanpasu_service.Manager.Effects.{Result, ok, err, Host}
use clash_nyanpasu_service.Manager.Fallible.{◌>>=◌, ◌>>◌, return, rely, proceed}
use clash_nyanpasu_service.Manager.Session.{Active, Session, Tx}
use clash_nyanpasu_service.Manager.Session.Quiet.{IsQuiet, Quiet-refl}
use clash_nyanpasu_service.Manager.Session.Safety.{Safe, Safe-Quiet, Ensures}
use clash_nyanpasu_service.Manager.Session.Retiring.{Held, Held-Quiet}
use clash_nyanpasu_service.Manager.Launch.Outcomes.{HasSpec}
use clash_nyanpasu_service.Manager.Launch.Settling.{Settled, failed-Settled}
use clash_nyanpasu_service.Manager.Lifecycle.{reject_quarantine}

module _ (h : Host) where
  open h use {Instance, Document}

  -- What follows a result, where a condition `P` holds that leaves no core lost.
  pub proceed-Settled :
      {A B : Type 0} (good : B → Active h → Type 0) (P : Session h → Type 0)
      (f : A → Tx h (Result B)) (r : Result A) (s : Session h)
      → P s
      → (P s → Safe h false [] s)
      → ((a : A) → Ensures h P (f a) (Settled h good))
      → Settled h good (proceed f r s).1 (proceed f r s).0
  unfolding proceed
  proceed-Settled good P f (ok a) s p l k = k a s p
  proceed-Settled good P f (err e) s p l k = failed-Settled h good false e s (l p)

  -- A quiet step, where no core is lost before, and what follows it.
  pub quiet_bind-Settled :
      {A B : Type 0} (good : B → Active h → Type 0) (m : Tx h (Result A)) (f : A → Tx h (Result B))
      → IsQuiet h m
      → ((a : A) → Ensures h (Safe h false []) (f a) (Settled h good))
      → Ensures h (Safe h false []) (m >>= f) (Settled h good)
  unfolding ◌>>=◌
  quiet_bind-Settled good m f q k s p =
      proceed-Settled good (Safe h false []) f _ _ (Safe-Quiet h false [] _ _ (q s) p) (λ t. t) k

  pub quiet_next-Settled :
      {A B : Type 0} (good : B → Active h → Type 0) (m : Tx h (Result A)) (f : Tx h (Result B))
      → IsQuiet h m
      → Ensures h (Safe h false []) f (Settled h good)
      → Ensures h (Safe h false []) (m >> f) (Settled h good)
  unfolding ◌>>◌
  quiet_next-Settled good m f q k s p =
      proceed-Settled good (Safe h false []) (λ a. f) _ _ (Safe-Quiet h false [] _ _ (q s) p)
        (λ t. t) (λ a. k)

  pub bind_in_slot-Settled :
      {A B : Type 0} (good : B → Active h → Type 0) (x : Active h) (m : Tx h (Result A))
      (f : A → Tx h (Result B))
      → IsQuiet h m
      → ((a : A) → Ensures h (Held h x) (f a) (Settled h good))
      → Ensures h (Held h x) (m >>= f) (Settled h good)
  unfolding ◌>>=◌
  bind_in_slot-Settled good x m f q k s p =
      proceed-Settled good (Held h x) f _ _ (Held-Quiet h x _ _ (q s) p) (λ t. t.safe) k

  pub next_in_slot-Settled :
      {A B : Type 0} (good : B → Active h → Type 0) (x : Active h) (m : Tx h (Result A))
      (f : Tx h (Result B))
      → IsQuiet h m
      → Ensures h (Held h x) f (Settled h good)
      → Ensures h (Held h x) (m >> f) (Settled h good)
  unfolding ◌>>◌
  next_in_slot-Settled good x m f q k s p =
      proceed-Settled good (Held h x) (λ a. f) _ _ (Held-Quiet h x _ _ (q s) p) (λ t. t.safe)
        (λ a. k)

  pub reject_quarantine-IsQuiet : IsQuiet h (reject_quarantine h)
  unfolding reject_quarantine
  reject_quarantine-IsQuiet s = Quiet-refl h s

  pub rely-IsQuiet : {A : Type 0} (r : Result A) → IsQuiet h (rely r)
  unfolding rely
  rely-IsQuiet r s = Quiet-refl h s

  -- A report of a success that filled the slot.
  pub hard_reported :
      {A : Type 0} (spec : InstanceSpec) (o : A) (r : Result (Unit {0})) (s : Session h)
      → Settled h (HasSpec h spec) r s
      → Settled h (HasSpec h spec) (proceed (λ a. return o) r s).1 (proceed (λ a. return o) r s).0
  unfolding proceed
  hard_reported spec o (ok u) s p = record { safe = p.safe; fills = p.fills }
  hard_reported spec o (err e) s p = record { safe = p.safe; fills = tt }
