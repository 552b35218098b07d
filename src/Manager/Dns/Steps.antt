-- ===== src/Manager/Dns/Steps.antt =====
-- The DNS steps are quiet: they leave the cores, the slot and the quarantine alone.
use clash_nyanpasu_service.Shared.{Bytes, refl, Bool, true, false, Option, none, some, List}
use clash_nyanpasu_service.Failure.{Epoch}
use clash_nyanpasu_service.Manager.Effects.{
  Result, ok, err, Awaited, DnsOverrideRecord, Host, observe, apply_dns, restore_dns, write_record,
}
use clash_nyanpasu_service.Manager.Session.{Active, Tx}
use clash_nyanpasu_service.Manager.Session.Quiet.{IsQuiet, Quiet-refl, call-IsQuiet, ◌then◌}
use clash_nyanpasu_service.Manager.Dns.{
  Baseline, baseline, recorded, persist_dns_record, restored, restore_from, dns_restore, Wanted,
  desired, keep_read_back, applied, apply_recorded, override, override_over, with_controller,
  converge, dns_converge,
}

module _ (h : Host) where
  recorded-IsQuiet :
      (r : Option DnsOverrideRecord) (w : Result (Unit {0})) → IsQuiet h (recorded h r w)
  unfolding recorded
  recorded-IsQuiet r (ok u) s = record {
    live = λ i x. x;
    same_current = refl;
    same_spec = refl;
    same_quarantine = refl;
  }
  recorded-IsQuiet r (err e) s = Quiet-refl h s

  persist-IsQuiet : (r : Option DnsOverrideRecord) → IsQuiet h (persist_dns_record h r)
  unfolding persist_dns_record
  persist-IsQuiet r s = ◌then◌ h (call-IsQuiet h (write_record r) s) (recorded-IsQuiet r _ _)

  restored-IsQuiet : (a : Awaited (Result (Unit {0}))) → IsQuiet h (restored h a)
  unfolding restored
  restored-IsQuiet (some (ok u)) s = persist-IsQuiet none s
  restored-IsQuiet (some (err e)) s = Quiet-refl h s
  restored-IsQuiet none s = Quiet-refl h s

  restore_from-IsQuiet : (r : Option DnsOverrideRecord) → IsQuiet h (restore_from h r)
  unfolding restore_from
  restore_from-IsQuiet none s = Quiet-refl h s
  restore_from-IsQuiet (some r) s =
      ◌then◌ h (persist-IsQuiet _ s)
        (◌then◌ h (call-IsQuiet h (restore_dns r) _) (restored-IsQuiet _ _))

  with_controller-IsQuiet :
      (b : Bool) (m : Tx h (Unit {0})) → IsQuiet h m → IsQuiet h (with_controller h b m)
  unfolding with_controller
  with_controller-IsQuiet true m q s = q s
  with_controller-IsQuiet false m q s = Quiet-refl h s

  pub dns_restore-IsQuiet : IsQuiet h (dns_restore h)
  unfolding dns_restore
  dns_restore-IsQuiet s =
      with_controller-IsQuiet h.has_dns _ (λ t. restore_from-IsQuiet t.dns_record t) s

  desired-IsQuiet : (a : Option (Active h)) → IsQuiet h (desired h a)
  unfolding desired
  desired-IsQuiet none s = Quiet-refl h s
  desired-IsQuiet (some a) s = call-IsQuiet h (observe a.instance) s

  keep_read_back-IsQuiet : (r : Option DnsOverrideRecord) → IsQuiet h (keep_read_back h r)
  unfolding keep_read_back
  keep_read_back-IsQuiet none s = Quiet-refl h s
  keep_read_back-IsQuiet (some r) s = persist-IsQuiet (some r) s

  applied-IsQuiet :
      (b : Option Baseline) (a : Awaited (Result DnsOverrideRecord)) → IsQuiet h (applied h b a)
  unfolding applied
  applied-IsQuiet b (some (ok r)) s = keep_read_back-IsQuiet _ s
  applied-IsQuiet b (some (err e)) s = Quiet-refl h s
  applied-IsQuiet b none s = Quiet-refl h s

  apply_recorded-IsQuiet :
      (b : Option Baseline) (servers : List Bytes) (epoch : Epoch) (w : Result (Unit {0}))
      → IsQuiet h (apply_recorded h b servers epoch w)
  unfolding apply_recorded
  apply_recorded-IsQuiet b servers epoch (ok u) s =
      ◌then◌ h (call-IsQuiet h (apply_dns servers epoch) s) (applied-IsQuiet b _ _)
  apply_recorded-IsQuiet b servers epoch (err e) s = Quiet-refl h s

  override-IsQuiet : (b : Option Baseline) (w : Wanted h) → IsQuiet h (override h b w)
  unfolding override
  override-IsQuiet b none s = dns_restore-IsQuiet s
  override-IsQuiet b (some (servers, epoch)) s =
      ◌then◌ h (persist-IsQuiet _ s) (apply_recorded-IsQuiet b servers epoch _ _)

  override_over-IsQuiet : (w : Wanted h) → IsQuiet h (override_over h w)
  unfolding override_over
  override_over-IsQuiet w s = override-IsQuiet (baseline s.dns_record) w s

  converge-IsQuiet : IsQuiet h (converge h)
  unfolding converge
  converge-IsQuiet s = ◌then◌ h (desired-IsQuiet s.current s) (override_over-IsQuiet _ _)

  pub dns_converge-IsQuiet : IsQuiet h (dns_converge h)
  unfolding dns_converge
  dns_converge-IsQuiet s = with_controller-IsQuiet h.has_dns _ converge-IsQuiet s
