-- ===== src/Manager/Dns/Recorded.antt =====
-- An override that may be in place is on record, so that a later restore can undo it.
use clash_nyanpasu_service.Shared.{
  Bytes, ◌≡◌, refl, ◌⊎◌, inl, inr, Bool, true, false, Option, none, some, List,
}
use clash_nyanpasu_service.Failure.{Epoch}
use clash_nyanpasu_service.Manager.Effects.{
  Result, ok, err, Awaited, Ask, DnsOverrideRecord, Host, observe, apply_dns, restore_dns,
  write_record,
}
use clash_nyanpasu_service.Manager.Session.{Active, Session, Tx, call}
use clash_nyanpasu_service.Manager.Dns.{
  Baseline, baseline, recorded, persist_dns_record, restored, restore_from, with_controller,
  dns_restore, Wanted, desired, keep_read_back, applied, apply_recorded, override, override_over,
  converge, dns_converge,
}

unfoldable pub is_apply_dns : {I D P : Type 0} → Ask I D P → Bool
is_apply_dns (apply_dns servers epoch) = true
is_apply_dns _ = false

-- `Overridden` says of the host that an override may be in place. Only `apply` of the controller puts one
-- there, and a `restore` that is read back as clean takes it away.
module _ (h : Host) (Overridden : h.World → Type 0)
    (apply_only : (a : Ask h.Instance h.Document h.Patch) (w : h.World)
      → is_apply_dns a ≡ false
      → Overridden (h.ask a w).0
      → Overridden w)
    (restore_clean : (r : DnsOverrideRecord) (w : h.World) (u : Unit {0})
      → (h.ask (restore_dns r) w).1 ≡ some (ok u)
      → Overridden (h.ask (restore_dns r) w).0
      → ⊥) where
  abbrev OnRecord : Session h → Type 0
  OnRecord s = (r : DnsOverrideRecord) × (s.dns_record ≡ some r)

  -- No override is in place, or there is a record of one.
  abbrev pub Tracked : Session h → Type 0
  Tracked s = (Overridden s.world → ⊥) ⊎ OnRecord s

  call-Tracked :
      (a : Ask h.Instance h.Document h.Patch) (s : Session h)
      → is_apply_dns a ≡ false
      → Tracked s
      → Tracked (call h a s).0
  unfolding call
  call-Tracked a s e (inl n) = inl λ o. n (apply_only a s.world e o)
  call-Tracked a s e (inr r) = inr r

  call-OnRecord :
      (a : Ask h.Instance h.Document h.Patch) (s : Session h) → OnRecord s → OnRecord (call h a s).0
  unfolding call
  call-OnRecord a s r = r

  recorded-Tracked :
      (r : DnsOverrideRecord) (w : Result (Unit {0})) (s : Session h)
      → Tracked s
      → Tracked (recorded h (some r) w s).0
  unfolding recorded
  recorded-Tracked r (ok u) s t = inr (r, refl)
  recorded-Tracked r (err e) s t = t

  recorded-OnRecord :
      (r : DnsOverrideRecord) (w : Result (Unit {0})) (s : Session h)
      → OnRecord s
      → OnRecord (recorded h (some r) w s).0
  unfolding recorded
  recorded-OnRecord r (ok u) s t = (r, refl)
  recorded-OnRecord r (err e) s t = t

  persist-OnRecord :
      (r : DnsOverrideRecord) (s : Session h)
      → OnRecord s
      → OnRecord (persist_dns_record h (some r) s).0
  unfolding persist_dns_record
  persist-OnRecord r s t = recorded-OnRecord r _ _ (call-OnRecord (write_record (some r)) s t)

  cleared-Tracked :
      (w : Result (Unit {0})) (s : Session h)
      → (Overridden s.world → ⊥)
      → Tracked (recorded h none w s).0
  unfolding recorded
  cleared-Tracked (ok u) s n = inl n
  cleared-Tracked (err e) s n = inl n

  clear-Tracked :
      (s : Session h) → (Overridden s.world → ⊥) → Tracked (persist_dns_record h none s).0
  unfolding persist_dns_record call is_apply_dns
  clear-Tracked s n = cleared-Tracked _ _ (λ o. n (apply_only (write_record none) s.world refl o))

  restored-Tracked :
      (r : DnsOverrideRecord) (a : Awaited (Result (Unit {0}))) (s : Session h)
      → (h.ask (restore_dns r) s.world).1 ≡ a
      → OnRecord s
      → Tracked (restored h a (call h (restore_dns r) s).0).0
  unfolding restored call
  restored-Tracked r (some (ok u)) s e t = clear-Tracked _ (restore_clean r s.world u e)
  restored-Tracked r (some (err f)) s e t = inr t
  restored-Tracked r none s e t = inr t

  restore_from-Tracked :
      (o : Option DnsOverrideRecord) (s : Session h)
      → s.dns_record ≡ o
      → Tracked s
      → Tracked (restore_from h o s).0
  unfolding restore_from call
  restore_from-Tracked none s e t = t
  restore_from-Tracked (some r) s e t = restored-Tracked r _ _ refl (persist-OnRecord _ s (r, e))

  with_controller-Tracked :
      (b : Bool) (m : Tx h (Unit {0})) (s : Session h)
      → (Tracked s → Tracked (m s).0)
      → Tracked s
      → Tracked (with_controller h b m s).0
  unfolding with_controller
  with_controller-Tracked true m s k t = k t
  with_controller-Tracked false m s k t = t

  -- `dns_restore` keeps that an override which may be in place is on record.
  dns_restore-Tracked : (s : Session h) → Tracked s → Tracked (dns_restore h s).0
  unfolding dns_restore
  dns_restore-Tracked s t =
      with_controller-Tracked h.has_dns _ s (restore_from-Tracked s.dns_record s refl) t

  desired-Tracked : (o : Option (Active h)) (s : Session h) → Tracked s → Tracked (desired h o s).0
  unfolding desired is_apply_dns
  desired-Tracked none s t = t
  desired-Tracked (some a) s t = call-Tracked (observe a.instance) s refl t

  keep_read_back-OnRecord :
      (o : Option DnsOverrideRecord) (s : Session h)
      → OnRecord s
      → OnRecord (keep_read_back h o s).0
  unfolding keep_read_back
  keep_read_back-OnRecord none s t = t
  keep_read_back-OnRecord (some r) s t = persist-OnRecord r s t

  applied-OnRecord :
      (b : Option Baseline) (a : Awaited (Result DnsOverrideRecord)) (s : Session h)
      → OnRecord s
      → OnRecord (applied h b a s).0
  unfolding applied
  applied-OnRecord b (some (ok r)) s t = keep_read_back-OnRecord _ s t
  applied-OnRecord b (some (err e)) s t = t
  applied-OnRecord b none s t = t

  -- The override is applied only where its record was written.
  overridden-Tracked :
      (b : Option Baseline) (servers : List Bytes) (epoch : Epoch) (r : DnsOverrideRecord)
      (w : Result (Unit {0})) (s : Session h)
      → Tracked s
      → Tracked
          (apply_recorded h b servers epoch
            (recorded h (some r) w s).1
            (recorded h (some r) w s).0).0
  unfolding apply_recorded recorded
  overridden-Tracked b servers epoch r (ok u) s t =
      inr (applied-OnRecord b _ _ (call-OnRecord (apply_dns servers epoch) _ (r, refl)))
  overridden-Tracked b servers epoch r (err e) s t = t

  override-Tracked :
      (b : Option Baseline) (w : Wanted h) (s : Session h)
      → Tracked s
      → Tracked (override h b w s).0
  unfolding override persist_dns_record is_apply_dns
  override-Tracked b none s t = dns_restore-Tracked s t
  override-Tracked b (some (servers, epoch)) s t =
      overridden-Tracked b servers epoch _ _ _ (call-Tracked (write_record _) s refl t)

  override_over-Tracked :
      (w : Wanted h) (s : Session h) → Tracked s → Tracked (override_over h w s).0
  unfolding override_over
  override_over-Tracked w s t = override-Tracked (baseline s.dns_record) w s t

  converge-Tracked : (s : Session h) → Tracked s → Tracked (converge h s).0
  unfolding converge
  converge-Tracked s t = override_over-Tracked _ _ (desired-Tracked s.current s t)

  -- An override that may be in place is on record after `dns_converge` and after `dns_restore`, where this
  -- held before: it is applied only once its record is written, a failed or cut-off call keeps the record,
  -- and the record goes only once a restore is read back as clean.
  pub dns-Tracked :
      (s : Session h) → Tracked s → Tracked (dns_converge h s).0 × Tracked (dns_restore h s).0
  unfolding dns_converge
  dns-Tracked s t =
      (with_controller-Tracked h.has_dns _ s (converge-Tracked s) t, dns_restore-Tracked s t)
