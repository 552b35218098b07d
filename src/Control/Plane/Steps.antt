-- ===== src/Control/Plane/Steps.antt =====
-- Every step keeps the invariant, and so does every run.
use clash_nyanpasu_service.Shared.{refl, ap}
use clash_nyanpasu_service.Control.OperationId.{id_key}
use clash_nyanpasu_service.Control.Channel.{Channel}
use clash_nyanpasu_service.Control.Plane.{
  Plane, clean, leaving, draining, exited, Step, admits, latches, reserves, sends, receives, ends,
  finishes, closes, drains, drained, latch, Reach, here, next,
}
use clash_nyanpasu_service.Control.Plane.Invariant.{busy, Inv}
use clash_nyanpasu_service.Control.Plane.Admitting.{admit_command-Inv, send_shutdown-Inv}
use clash_nyanpasu_service.Control.Plane.Executing.{
  receive-Inv, finish-Inv, drain_one-Inv, moved-Inv, reserved-Inv,
}

module _ (c : Channel) where
  -- Every step of every thread keeps the invariant.
  pub Step-Inv : (p q : Plane c) → Step c p q → Inv c p → Inv c q
  unfolding latch
  Step-Inv p q (admits id command e) v = rw e (admit_command-Inv c p id command v)
  Step-Inv p q (latches e) v = rw e (record {
    coherent = v.coherent;
    room = v.room;
    bounded = v.bounded;
    fits = v.fits;
    entries = v.entries;
    unique = v.unique;
    current = v.current;
    counted = v.counted;
    quiet = v.quiet;
  })
  Step-Inv p q (reserves s got e) v = rw e (reserved-Inv c p s v got)
  Step-Inv p q (sends id h e) v = rw e (send_shutdown-Inv c p id h v)
  Step-Inv p q (receives w s at got e) v = rw e (receive-Inv c p w s v at got)
  Step-Inv p q (ends at got e) v =
      rw e (moved-Inv c p p.queue (leaving clean) v (ap busy at) refl refl refl tt tt)
  Step-Inv p q (finishes id command outcome at e) v = rw e (finish-Inv c p id command outcome v at)
  Step-Inv p q (closes exit at e) v =
      let (m, n, h) = c.close_lem p.queue in
      rw e (moved-Inv c p (c.close p.queue) (draining exit) v (ap busy at) refl m n tt h)
  Step-Inv p q (drains exit w s at got e) v = rw e (drain_one-Inv c p exit w s v at got)
  Step-Inv p q (drained exit at got e) v =
      let (m, n, h) = c.recv_ended_lem p.queue got in
      rw e (moved-Inv c p p.queue (exited exit) v (ap busy at) refl refl refl tt (h, m, n))

  pub Reach-Inv : {p q : Plane c} → Reach c p q → Inv c p → Inv c q
  Reach-Inv here v = v
  Reach-Inv (next r s) v = Step-Inv _ _ s (Reach-Inv r v)
