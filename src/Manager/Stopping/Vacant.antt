-- ===== src/Manager/Stopping/Vacant.antt =====
-- A stop leaves the slot vacant, and no core lost.
use clash_nyanpasu_service.Shared.{
  ◌≡◌, refl, inl, inr, Bool, true, false, Option, none, some, [], ◌∷◌,
}
use clash_nyanpasu_service.Failure.{Epoch, Error}
use clash_nyanpasu_service.Manager.Status.{InstanceStatus}
use clash_nyanpasu_service.Manager.Effects.{Result, ok, err, Host, observe, stop_sink}
use clash_nyanpasu_service.Manager.Session.{Active, Session}
use clash_nyanpasu_service.Manager.Session.Quiet.{call-IsQuiet, publish-IsQuiet}
use clash_nyanpasu_service.Manager.Session.Safety.{
  Safe, Safe-Quiet, Ensures, Stopped, stop_instance-Stopped,
}
use clash_nyanpasu_service.Manager.Session.Latching.{Unproven, latch_unconfirmed-Safe}
use clash_nyanpasu_service.Manager.Session.Retiring.{Taken, take_current-Taken}
use clash_nyanpasu_service.Manager.Launch.Settling.{fail_published-Safe, fail_stop-Safe}
use clash_nyanpasu_service.Manager.Dns.Steps.{dns_restore-IsQuiet}
use clash_nyanpasu_service.Manager.Stopping.{
  cleaned_up, stopped_live, stop_live, cleaned_ended, stopped_ended, stop_ended, stop_captured,
  stop_taken, stop, shut_taken, shut_sink, shutdown,
}

module _ (h : Host) where
  open h use {Instance, epoch_of}

  abbrev pub Vacant : Session h → Type 0
  Vacant = Safe h true []

  cleaned_up-Safe : (r : Result (Unit {0})) (s : Session h) → Vacant s → Vacant (cleaned_up h r s).0
  unfolding cleaned_up
  cleaned_up-Safe (ok u) s p = Safe-Quiet h true [] _ _ (publish-IsQuiet h _ _ s) p
  cleaned_up-Safe (err e) s p = fail_published-Safe h _ true [] e s p

  -- A failed stop, of an instance of an epoch.
  pub Stopped-Unproven :
      (i : Instance) (epoch : Epoch) (e : Error) (s : Session h)
      → epoch_of i ≡ epoch
      → Stopped h true i [] (err e) s
      → Unproven h true [] epoch e s
  Stopped-Unproven i epoch e s q (inl (t, p)) = inl (t, inr (i, q, p))
  Stopped-Unproven i epoch e s q (inr (t, p)) = inr (t, p)

  stopped_live-Safe :
      (a : Active h) (r : Result (Unit {0})) (s : Session h)
      → Stopped h true a.instance [] r s
      → Vacant (stopped_live h a r s).0
  unfolding stopped_live
  stopped_live-Safe a (ok u) s p =
      cleaned_up-Safe _ _ (Safe-Quiet h true [] _ _ (call-IsQuiet h _ s) p)
  stopped_live-Safe a (err e) s p =
      fail_stop-Safe h _ true [] _ e s (Stopped-Unproven a.instance _ e s refl p)

  stop_live-Safe :
      (a : Active h) (s : Session h) → Safe h true (a.instance ∷ []) s → Vacant (stop_live h a s).0
  unfolding stop_live
  stop_live-Safe a s p = stopped_live-Safe a _ _ (
      stop_instance-Stopped h true a.instance [] _
        (Safe-Quiet h true _ _ _ (publish-IsQuiet h _ _ s) p))

  cleaned_ended-Safe :
      (r : Result (Unit {0})) (s : Session h) → Vacant s → Vacant (cleaned_ended h r s).0
  unfolding cleaned_ended
  cleaned_ended-Safe (ok u) s p = p
  cleaned_ended-Safe (err e) s p = fail_published-Safe h _ true [] e s p

  stopped_ended-Safe :
      (a : Active h) (r : Result (Unit {0})) (s : Session h)
      → Stopped h true a.instance [] r s
      → Vacant (stopped_ended h a r s).0
  unfolding stopped_ended
  stopped_ended-Safe a (ok u) s p =
      cleaned_ended-Safe _ _ (Safe-Quiet h true [] _ _ (call-IsQuiet h _ s) p)
  stopped_ended-Safe a (err e) s p =
      latch_unconfirmed-Safe h true [] _ e s (Stopped-Unproven a.instance _ e s refl p)

  stop_ended-Safe :
      (a : Active h) (c : InstanceStatus) (s : Session h)
      → Safe h true (a.instance ∷ []) s
      → Vacant (stop_ended h a c s).0
  unfolding stop_ended
  stop_ended-Safe a c s p = stopped_ended-Safe a _ _ (
      stop_instance-Stopped h true a.instance [] _
        (Safe-Quiet h true _ _ _ (publish-IsQuiet h _ _ s) p))

  stop_captured-Safe :
      (b : Bool) (a : Active h) (c : InstanceStatus) (s : Session h)
      → Safe h true (a.instance ∷ []) s
      → Vacant (stop_captured h b a c s).0
  unfolding stop_captured
  stop_captured-Safe true a c s p = stop_ended-Safe a c s p
  stop_captured-Safe false a c s p = stop_live-Safe a s p

  stop_taken-Safe :
      (o : Option (Active h)) (s : Session h) → Taken h [] o s → Vacant (stop_taken h o s).0
  unfolding stop_taken
  stop_taken-Safe none s p = p
  stop_taken-Safe (some a) s (e, p) =
      stop_captured-Safe _ a _ _ (Safe-Quiet h true _ _ _ (call-IsQuiet h (observe a.instance) s) p)

  -- From a state where no core is lost, `stop` leaves the slot vacant on every path, errors included, and every
  -- core that may still be alive is of a quarantined epoch.
  pub stop-Vacant : Ensures h (Safe h false []) (stop h) (λ r. Vacant)
  unfolding stop
  stop-Vacant s p =
      stop_taken-Safe _ _
        (take_current-Taken h false [] _ (Safe-Quiet h false [] _ _ (dns_restore-IsQuiet h s) p))

  shut_taken-Safe :
      (o : Option (Active h)) (s : Session h) → Taken h [] o s → Vacant (shut_taken h o s).0
  unfolding shut_taken
  shut_taken-Safe none s p = p
  shut_taken-Safe (some a) s (e, p) = stop_live-Safe a s p

  -- From a state where no core is lost, `shutdown` leaves the slot vacant on every path, errors included, and
  -- every core that may still be alive is of a quarantined epoch.
  pub shutdown-Vacant : Ensures h (Safe h false []) (shutdown h) (λ r. Vacant)
  unfolding shutdown shut_sink
  shutdown-Vacant s p = Safe-Quiet h true [] _ _ (call-IsQuiet h stop_sink _) (
      shut_taken-Safe _ _
        (take_current-Taken h false [] _ (Safe-Quiet h false [] _ _ (dns_restore-IsQuiet h s) p)))
