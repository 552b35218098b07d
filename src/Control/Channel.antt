-- ===== src/Control/Channel.antt =====
-- The bounded queue between `CoreControl` and its executor, tokio's `mpsc` channel, as an interface:
-- the operations that crates/nyanpasu-core-manager/src/control calls, with what their documentation
-- says of the messages that wait and of the permits that are handed out.
use clash_nyanpasu_service.Shared.{
  ℕ, ◌+◌, ◌<◌, ◌≡◌, ◌≢◌, Bool, true, false, List, [], ◌∷◌, ◌++◌, length,
}
use clash_nyanpasu_service.Control.Registry.{ExecutorWork, SendOutcome, sent}

pub data Reserved (S : Type 0) : Type 0 where
  granted : S → Reserved S
  reserve_waits reserve_closed : Reserved S

pub data Received (S : Type 0) : Type 0 where
  received : ExecutorWork → S → Received S
  recv_waits recv_ended : Received S

pub record Channel : Type 1 where
  pub State : Type 0
  -- Sent and not yet received, the oldest first.
  pub messages : State → List ExecutorWork
  -- Handed out by `reserve`, and neither used nor dropped.
  pub permits : State → ℕ
  pub is_closed : State → Bool
  pub capacity : ℕ
  pub initial : State
  pub try_send : ExecutorWork → State → State × SendOutcome
  pub reserve : State → Reserved State
  pub send : ExecutorWork → State → State
  pub drop_permit : State → State
  pub recv : State → Received State
  pub close : State → State
  pub initial_lem : (messages initial ≡ []) × (permits initial ≡ 0)
  pub try_send_sent :
      (w : ExecutorWork) (s : State)
      → (try_send w s).1 ≡ sent
      → (messages (try_send w s).0 ≡ messages s ++ w ∷ [])
        × (permits (try_send w s).0 ≡ permits s)
        × (length (messages s) + permits s < capacity)
        × (is_closed s ≡ false)
  pub try_send_refused :
      (w : ExecutorWork) (s : State)
      → (try_send w s).1 ≢ sent
      → (messages (try_send w s).0 ≡ messages s)
        × (permits (try_send w s).0 ≡ permits s)
        × (is_closed (try_send w s).0 ≡ is_closed s)
  pub reserve_granted :
      (s s' : State)
      → reserve s ≡ granted s'
      → (messages s' ≡ messages s)
        × (permits s' ≡ permits s + 1)
        × (length (messages s) + permits s < capacity)
        × (is_closed s ≡ false)
  pub send_lem :
      (w : ExecutorWork) (s : State)
      → 0 < permits s
      → (messages (send w s) ≡ messages s ++ w ∷ [])
        × (permits (send w s) + 1 ≡ permits s)
        × (is_closed (send w s) ≡ is_closed s)
  pub drop_permit_lem :
      (s : State)
      → 0 < permits s
      → (messages (drop_permit s) ≡ messages s)
        × (permits (drop_permit s) + 1 ≡ permits s)
        × (is_closed (drop_permit s) ≡ is_closed s)
  pub recv_received :
      (s : State) (w : ExecutorWork) (s' : State)
      → recv s ≡ received w s'
      → (messages s ≡ w ∷ messages s') × (permits s' ≡ permits s) × (is_closed s' ≡ is_closed s)
  pub recv_ended_lem :
      (s : State) → recv s ≡ recv_ended → (messages s ≡ []) × (permits s ≡ 0) × (is_closed s ≡ true)
  pub recv_ready :
      (s : State) (w : ExecutorWork) (ws : List ExecutorWork)
      → messages s ≡ w ∷ ws
      → (s' : State) × (recv s ≡ received w s')
  pub recv_done :
      (s : State) → messages s ≡ [] → permits s ≡ 0 → is_closed s ≡ true → recv s ≡ recv_ended
  pub close_lem :
      (s : State)
      → (messages (close s) ≡ messages s)
        × (permits (close s) ≡ permits s)
        × (is_closed (close s) ≡ true)
