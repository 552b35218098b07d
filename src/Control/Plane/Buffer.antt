-- ===== src/Control/Plane/Buffer.antt =====
-- A bounded queue that meets the interface of a channel, for the tests of the control plane.
use clash_nyanpasu_service.Shared.{
  ℕ, ◌+◌, ◌-◌, ◌<◌, ◌≡◌, ◌≢◌, refl, Bool, true, false, List, [], ◌∷◌, ◌++◌, arith, length,
  if◌then◌else◌, ltb, ◌==◌,
}
use clash_nyanpasu_service.Control.OperationId.{id_key}
use clash_nyanpasu_service.Control.Registry.{ExecutorWork, SendOutcome, sent, full, closed}
use clash_nyanpasu_service.Control.Channel.{
  Channel, Reserved, granted, reserve_waits, reserve_closed, Received, received, recv_waits,
  recv_ended,
}

pub record Buffer : Type 0 where
  pub held : List ExecutorWork
  pub reserved : ℕ
  pub ended : Bool

abbrev pub room : ℕ
room = 2

abbrev pub put : ExecutorWork → Buffer → Buffer
put w b = record b { held = b.held ++ w ∷ [] }

abbrev pub offer : ExecutorWork → Buffer → Buffer × SendOutcome
offer w b =
    if b.ended
    then (b, closed)
    else if ltb (length b.held + b.reserved) room
    then (put w b, sent)
    else (b, full)

abbrev pub take_permit : Buffer → Reserved Buffer
take_permit b =
    if b.ended
    then reserve_closed
    else if ltb (length b.held + b.reserved) room
    then granted (record b { reserved = b.reserved + 1 })
    else reserve_waits

abbrev pub use_permit : ExecutorWork → Buffer → Buffer
use_permit w b = record b { held = b.held ++ w ∷ []; reserved = b.reserved - 1 }

abbrev pub give_permit : Buffer → Buffer
give_permit b = record b { reserved = b.reserved - 1 }

abbrev pub next_message : Bool → ℕ → List ExecutorWork → Received Buffer
next_message e n (w ∷ ws) = received w (record { held = ws; reserved = n; ended = e })
next_message e n [] = if e then (if n == 0 then recv_ended else recv_waits) else recv_waits

abbrev pub receive_one : Buffer → Received Buffer
receive_one b = next_message b.ended b.reserved b.held

abbrev pub shut : Buffer → Buffer
shut b = record b { ended = true }

pub offer_sent :
    (w : ExecutorWork) (b : Buffer)
    → (offer w b).1 ≡ sent
    → ((offer w b).0.held ≡ b.held ++ w ∷ [])
      × ((offer w b).0.reserved ≡ b.reserved)
      × (length b.held + b.reserved < room)
      × (b.ended ≡ false)
offer_sent w b h = ground arith

pub offer_refused :
    (w : ExecutorWork) (b : Buffer)
    → (offer w b).1 ≢ sent
    → ((offer w b).0.held ≡ b.held)
      × ((offer w b).0.reserved ≡ b.reserved)
      × ((offer w b).0.ended ≡ b.ended)
offer_refused w b h = ground arith

pub take_permit_granted :
    (b b' : Buffer)
    → take_permit b ≡ granted b'
    → (b'.held ≡ b.held)
      × (b'.reserved ≡ b.reserved + 1)
      × (length b.held + b.reserved < room)
      × (b.ended ≡ false)
take_permit_granted b b' h = ground arith

pub use_permit_lem :
    (w : ExecutorWork) (b : Buffer)
    → 0 < b.reserved
    → ((use_permit w b).held ≡ b.held ++ w ∷ [])
      × ((use_permit w b).reserved + 1 ≡ b.reserved)
      × ((use_permit w b).ended ≡ b.ended)
use_permit_lem w b h = (refl, omega arith, refl)

pub give_permit_lem :
    (b : Buffer)
    → 0 < b.reserved
    → ((give_permit b).held ≡ b.held)
      × ((give_permit b).reserved + 1 ≡ b.reserved)
      × ((give_permit b).ended ≡ b.ended)
give_permit_lem b h = (refl, omega arith, refl)

pub next_message_received :
    (e : Bool) (n : ℕ) (ws : List ExecutorWork) (w : ExecutorWork) (b : Buffer)
    → next_message e n ws ≡ received w b
    → (ws ≡ w ∷ b.held) × (b.reserved ≡ n) × (b.ended ≡ e)
next_message_received e n [] w b h = absurd (ground arith)
next_message_received e n (v ∷ ws) w b h = ground arith

pub next_message_ended :
    (e : Bool) (n : ℕ) (ws : List ExecutorWork)
    → next_message e n ws ≡ recv_ended
    → (ws ≡ []) × (n ≡ 0) × (e ≡ true)
next_message_ended e n [] h = ground arith
next_message_ended e n (v ∷ ws) h = absurd (ground arith)

pub next_message_done :
    (b : Buffer) → b.held ≡ [] → b.reserved ≡ 0 → b.ended ≡ true → receive_one b ≡ recv_ended
next_message_done b h n e = rw (h, n, e)

pub next_message_ready :
    (b : Buffer) (w : ExecutorWork) (ws : List ExecutorWork)
    → b.held ≡ w ∷ ws
    → (b' : Buffer) × (receive_one b ≡ received w b')
next_message_ready b w ws h = (record { held = ws; reserved = b.reserved; ended = b.ended }, rw h)

abbrev pub bounded : Channel
bounded = record {
  State = Buffer;
  messages = λ b. b.held;
  permits = λ b. b.reserved;
  is_closed = λ b. b.ended;
  capacity = room;
  initial = record { held = []; reserved = 0; ended = false };
  try_send = offer;
  reserve = take_permit;
  send = use_permit;
  drop_permit = give_permit;
  recv = receive_one;
  close = shut;
  initial_lem = (refl, refl);
  try_send_sent = offer_sent;
  try_send_refused = offer_refused;
  reserve_granted = take_permit_granted;
  send_lem = use_permit_lem;
  drop_permit_lem = give_permit_lem;
  recv_received = λ b w b' h. next_message_received b.ended b.reserved b.held w b' h;
  recv_ended_lem = λ b h. next_message_ended b.ended b.reserved b.held h;
  recv_ready = next_message_ready;
  recv_done = next_message_done;
  close_lem = λ b. (refl, refl, refl);
}
