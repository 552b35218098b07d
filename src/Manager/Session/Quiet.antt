-- ===== src/Manager/Session/Quiet.antt =====
-- Steps that neither launch nor stop a core, and leave the slot and the quarantine as they are.
use clash_nyanpasu_service.Shared.{◌≡◌, refl, ◌∙◌, true, Option, none, some}
use clash_nyanpasu_service.Failure.{Error}
use clash_nyanpasu_service.Manager.Status.{CoreState, CoreStatus}
use clash_nyanpasu_service.Manager.Effects.{Result, ok, err, EpochPlan, Ask, Host, observe, now}
use clash_nyanpasu_service.Manager.Fallible
use clash_nyanpasu_service.Manager.Fallible.{proceed, lift, rely}
use clash_nyanpasu_service.Manager.Session.{
  Active, Session, Tx, Committed, call, set_status, set_commits, publish, publish_instance,
  publish_terminal_error, publish_quarantine, next_epoch, running_in, is_running,
}

module _ (h : Host) where
  open h use {Instance, Document, Patch, MayLive}

  pub record Quiet (s t : Session h) : Type 0 where
    pub live : (i : Instance) → MayLive t.world i → MayLive s.world i
    pub same_current : t.current ≡ s.current
    pub same_spec : t.last_spec ≡ s.last_spec
    pub same_quarantine : t.quarantine ≡ s.quarantine

  -- A computation that is quiet from every state.
  abbrev pub IsQuiet : {A : Type 0} → Tx h A → Type 0
  IsQuiet m = (s : Session h) → Quiet s (m s).0

  pub Quiet-refl : (s : Session h) → Quiet s s
  Quiet-refl s = record {
    live = λ i x. x;
    same_current = refl;
    same_spec = refl;
    same_quarantine = refl;
  }

  infixr 30 ◌then◌
  -- One quiet stretch after another.
  pub ◌then◌ : {s t u : Session h} → Quiet s t → Quiet t u → Quiet s u
  a then b = record {
    live = λ i x. a.live i (b.live i x);
    same_current = b.same_current ∙ a.same_current;
    same_spec = b.same_spec ∙ a.same_spec;
    same_quarantine = b.same_quarantine ∙ a.same_quarantine;
  }

  pub call-IsQuiet : (a : Ask Instance Document Patch) → IsQuiet (call h a)
  unfolding call
  call-IsQuiet a s = record {
    live = λ i x. h.ask_lem a s.world i x;
    same_current = refl;
    same_spec = refl;
    same_quarantine = refl;
  }

  set_status-IsQuiet : (f : CoreStatus → CoreStatus) → IsQuiet (set_status h f)
  unfolding set_status
  set_status-IsQuiet f s = record {
    live = λ i x. x;
    same_current = refl;
    same_spec = refl;
    same_quarantine = refl;
  }

  set_commits-IsQuiet :
      (f : Option (Committed Document) → Option (Committed Document)) → IsQuiet (set_commits h f)
  unfolding set_commits
  set_commits-IsQuiet f s = record {
    live = λ i x. x;
    same_current = refl;
    same_spec = refl;
    same_quarantine = refl;
  }

  pub next_epoch-IsQuiet : IsQuiet (next_epoch h)
  unfolding next_epoch
  next_epoch-IsQuiet s = record {
    live = λ i x. x;
    same_current = refl;
    same_spec = refl;
    same_quarantine = refl;
  }

  pub publish-IsQuiet :
      (state : CoreState) (plan : Option (EpochPlan Document)) → IsQuiet (publish h state plan)
  unfolding publish
  publish-IsQuiet state plan s = call-IsQuiet now s then set_status-IsQuiet _ _

  pub publish_instance-IsQuiet :
      (i : Instance) (state : CoreState) (plan : EpochPlan Document)
      → IsQuiet (publish_instance h i state plan)
  unfolding publish_instance
  publish_instance-IsQuiet i state plan s =
      call-IsQuiet (observe i) s
      then set_commits-IsQuiet _ _
      then call-IsQuiet now _
      then set_status-IsQuiet _ _

  pub publish_terminal_error-IsQuiet : (e : Error) → IsQuiet (publish_terminal_error h e)
  unfolding publish_terminal_error
  publish_terminal_error-IsQuiet e s = publish-IsQuiet _ _ s

  pub publish_quarantine-IsQuiet : (e : Option Error) → IsQuiet (publish_quarantine h e)
  unfolding publish_quarantine
  publish_quarantine-IsQuiet none s = Quiet-refl s
  publish_quarantine-IsQuiet (some e) s = publish_terminal_error-IsQuiet e s

  running_in-IsQuiet : (a : Option (Active h)) → IsQuiet (running_in h a)
  unfolding running_in
  running_in-IsQuiet none s = Quiet-refl s
  running_in-IsQuiet (some a) s = call-IsQuiet (observe a.instance) s

  pub is_running-IsQuiet : IsQuiet (is_running h)
  unfolding is_running
  is_running-IsQuiet s = running_in-IsQuiet s.current s

  pub lift-IsQuiet : {A : Type 0} (m : Tx h A) → IsQuiet m → IsQuiet (lift m)
  unfolding lift
  lift-IsQuiet m q s = q s

  pub rely-IsQuiet : {A : Type 0} (r : Result A) → IsQuiet (rely r)
  unfolding rely
  rely-IsQuiet r s = Quiet-refl s

  proceed-IsQuiet :
      {A B : Type 0} (f : A → Tx h (Result B)) (r : Result A)
      → ((a : A) → IsQuiet (f a))
      → IsQuiet (proceed f r)
  unfolding proceed
  proceed-IsQuiet f (ok a) q s = q a s
  proceed-IsQuiet f (err e) q s = Quiet-refl s

  pub bind-IsQuiet :
      {A B : Type 0} (m : Tx h (Result A)) (f : A → Tx h (Result B))
      → IsQuiet m
      → ((a : A) → IsQuiet (f a))
      → IsQuiet (Fallible.◌>>=◌ m f)
  unfolding Fallible.◌>>=◌
  bind-IsQuiet m f q k s = q s then proceed-IsQuiet f _ k _

  pub next-IsQuiet :
      {A B : Type 0} (m : Tx h (Result A)) (f : Tx h (Result B))
      → IsQuiet m
      → IsQuiet f
      → IsQuiet (Fallible.◌>>◌ m f)
  unfolding Fallible.◌>>◌
  next-IsQuiet m f q k s = q s then proceed-IsQuiet (λ a. f) _ (λ a. k) _

  -- A core that runs is in the slot.
  running_in_slot :
      (o : Option (Active h)) (s : Session h)
      → (running_in h o s).1 ≡ true
      → (x : Active h) × (o ≡ some x)
  unfolding running_in
  running_in_slot none s e = absurd (cc e)
  running_in_slot (some x) s e = (x, refl)

  pub is_running_slot :
      (s : Session h)
      → (is_running h s).1 ≡ true
      → (x : Active h) × ((is_running h s).0.current ≡ some x)
  unfolding is_running
  is_running_slot s e =
      let (x, c) = running_in_slot s.current s e in (x, (is_running-IsQuiet s).same_current ∙ c)
