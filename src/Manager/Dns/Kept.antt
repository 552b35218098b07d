-- ===== src/Manager/Dns/Kept.antt =====
-- The baseline of an override is read once, and stays what it was.
use clash_nyanpasu_service.Shared.{
  Bytes, ◌≡◌, refl, ◌∙◌, sym, ap, ◌⊎◌, inl, inr, Bool, true, false, Option, none, some, List, [],
  ◌∷◌, bytes_eq, bytes_eq_iff, subst, Bool-cases,
}
use clash_nyanpasu_service.Failure.{Epoch}
use clash_nyanpasu_service.Manager.Effects.{
  Result, ok, err, Awaited, Ask, DnsOverrideRecord, Host, apply_dns, restore_dns, write_record,
}
use clash_nyanpasu_service.Manager.Session.{Active, Session, Tx, call}
use clash_nyanpasu_service.Manager.Dns.{
  Baseline, baseline, baseline_of, recorded, persist_dns_record, restored, restore_from,
  with_controller, dns_restore, Wanted, desired, keep_read_back, read_back, pre_record, applied,
  apply_recorded, override, override_over, converge, dns_converge,
}

-- A baseline has an interface.
baseline_of_kept :
    (i : Bytes) (p : List Bytes) (b : Baseline) → baseline_of i p ≡ some b → b ≡ (i, p)
unfolding baseline_of
baseline_of_kept [] p b e = absurd (cc e)
baseline_of_kept (c ∷ cs) p b e = cc (e)

baseline_again :
    (o : Option DnsOverrideRecord) (b : Baseline)
    → baseline o ≡ some b
    → baseline_of b.0 b.1 ≡ some b
unfolding baseline
baseline_again none b e = absurd (cc e)
baseline_again (some r) b e =
    let q = baseline_of_kept r.interface r.previous b e in ap (λ x. baseline_of x.0 x.1) q ∙ e

module _ (h : Host) (b : Baseline) where
  -- The override is gone, or its baseline is the same.
  abbrev pub Kept : Session h → Type 0
  Kept s = (s.dns_record ≡ none) ⊎ (baseline s.dns_record ≡ some b)

  call-Kept : (a : Ask h.Instance h.Document h.Patch) (s : Session h) → Kept s → Kept (call h a s).0
  unfolding call
  call-Kept a s t = t

  recorded-Kept :
      (o : Option DnsOverrideRecord) (w : Result (Unit {0})) (s : Session h)
      → (o ≡ none) ⊎ (baseline o ≡ some b)
      → Kept s
      → Kept (recorded h o w s).0
  unfolding recorded
  recorded-Kept o (ok u) s k t = k
  recorded-Kept o (err e) s k t = t

  persist-Kept :
      (o : Option DnsOverrideRecord) (s : Session h)
      → (o ≡ none) ⊎ (baseline o ≡ some b)
      → Kept s
      → Kept (persist_dns_record h o s).0
  unfolding persist_dns_record
  persist-Kept o s k t = recorded-Kept o _ _ k (call-Kept (write_record o) s t)

  restored-Kept :
      (a : Awaited (Result (Unit {0}))) (s : Session h) → Kept s → Kept (restored h a s).0
  unfolding restored
  restored-Kept (some (ok u)) s t = persist-Kept none s (inl refl) t
  restored-Kept (some (err f)) s t = t
  restored-Kept none s t = t

  restore_from-Kept :
      (o : Option DnsOverrideRecord) (s : Session h)
      → s.dns_record ≡ o
      → Kept s
      → Kept (restore_from h o s).0
  unfolding restore_from baseline
  restore_from-Kept none s e t = t
  restore_from-Kept (some r) s e (inl n) = absurd (cc (e, n))
  restore_from-Kept (some r) s e (inr k) =
      restored-Kept _ _
        (call-Kept (restore_dns r) _ (persist-Kept _ s (inr (ap baseline (sym e) ∙ k)) (inr k)))

  with_controller-Kept :
      (c : Bool) (m : Tx h (Unit {0})) (s : Session h)
      → (Kept s → Kept (m s).0)
      → Kept s
      → Kept (with_controller h c m s).0
  unfolding with_controller
  with_controller-Kept true m s k t = k t
  with_controller-Kept false m s k t = t

  dns_restore-Kept : (s : Session h) → Kept s → Kept (dns_restore h s).0
  unfolding dns_restore
  dns_restore-Kept s t =
      with_controller-Kept h.has_dns _ s (restore_from-Kept s.dns_record s refl) t

  desired_record :
      (o : Option (Active h)) (s : Session h) → (desired h o s).0.dns_record ≡ s.dns_record
  unfolding desired call
  desired_record none s = refl
  desired_record (some a) s = refl

  keep_read_back-Kept :
      (o : Option DnsOverrideRecord) (s : Session h)
      → (o ≡ none) ⊎ (baseline o ≡ some b)
      → Kept s
      → Kept (keep_read_back h o s).0
  unfolding keep_read_back
  keep_read_back-Kept none s k t = t
  keep_read_back-Kept (some r) s k t = persist-Kept (some r) s k t

  read_back-Kept :
      (r : DnsOverrideRecord)
      → baseline_of b.0 b.1 ≡ some b
      → (read_back (some b) r ≡ none) ⊎ (baseline (read_back (some b) r) ≡ some b)
  unfolding read_back baseline
  read_back-Kept r e = elim (Bool-cases (bytes_eq r.interface b.0)) [
    | inl t ↦ inr (rw t (ap (λ i. baseline_of i b.1) ((bytes_eq_iff r.interface b.0).0 t) ∙ e))
    | inr t ↦ inl (rw t refl)
  ]

  applied-Kept :
      (a : Awaited (Result DnsOverrideRecord)) (s : Session h)
      → baseline_of b.0 b.1 ≡ some b
      → Kept s
      → Kept (applied h (some b) a s).0
  unfolding applied
  applied-Kept (some (ok r)) s e t = keep_read_back-Kept _ s (read_back-Kept r e) t
  applied-Kept (some (err f)) s e t = t
  applied-Kept none s e t = t

  apply_recorded-Kept :
      (servers : List Bytes) (epoch : Epoch) (w : Result (Unit {0})) (s : Session h)
      → baseline_of b.0 b.1 ≡ some b
      → Kept s
      → Kept (apply_recorded h (some b) servers epoch w s).0
  unfolding apply_recorded
  apply_recorded-Kept servers epoch (ok u) s e t =
      applied-Kept _ _ e (call-Kept (apply_dns servers epoch) s t)
  apply_recorded-Kept servers epoch (err f) s e t = t

  override-Kept :
      (w : Wanted h) (s : Session h)
      → baseline_of b.0 b.1 ≡ some b
      → Kept s
      → Kept (override h (some b) w s).0
  unfolding override pre_record baseline
  override-Kept none s e t = dns_restore-Kept s t
  override-Kept (some (servers, epoch)) s e t =
      apply_recorded-Kept servers epoch _ _ e (persist-Kept _ s (inr e) t)

  override_over-Kept :
      (w : Wanted h) (s : Session h) → baseline s.dns_record ≡ some b → Kept (override_over h w s).0
  unfolding override_over
  override_over-Kept w s e =
      subst (λ o. Kept (override h o w s).0) (sym e)
        (override-Kept w s (baseline_again s.dns_record b e) (inr e))

  converge-Kept : (s : Session h) → baseline s.dns_record ≡ some b → Kept (converge h s).0
  unfolding converge
  converge-Kept s e = override_over-Kept _ _ (ap baseline (desired_record s.current s) ∙ e)

  -- Once an override has a baseline, `dns_converge` keeps it: afterwards there is no record any more, or one
  -- whose interface and servers before the override are those first read back, whatever the controller
  -- reads back later.
  pub dns_converge-Kept :
      (s : Session h) → baseline s.dns_record ≡ some b → Kept (dns_converge h s).0
  unfolding dns_converge
  dns_converge-Kept s e = with_controller-Kept h.has_dns _ s (λ t. converge-Kept s e) (inr e)
