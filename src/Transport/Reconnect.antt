-- ===== src/Transport/Reconnect.antt =====
-- client/src/transport/WebSocketConnection.ts: how `WebSocketConnection` opens, loses and reopens its
-- socket. The socket's callbacks are events of their own; those of a socket that was replaced have
-- another epoch, and do nothing. Packets, metrics and the slot token are left out.
pub mod Limit
pub mod Tests
use onlytwo.Base.{
  ℕ, suc, ◌+◌, ◌*◌, ◌^◌, Bool, true, false, not, ◌||◌, ◌&&◌, List, [], ◌∷◌, ltb, leb, ◌==◌,
  if◌then◌else◌, min,
}
use onlytwo.Config.Profile.{TransportProfile}

pub data ConnectionStatus : Type 0 where
  disconnected connecting connected reconnecting failed : ConnectionStatus

-- `is_opened`, `is_settled` and `is_reconnecting` are the variables of the last call of `open`.
pub record Connection : Type 0 where
  pub status : ConnectionStatus
  pub epoch : ℕ
  pub reconnect_attempts : ℕ
  pub intentional_close : Bool
  pub is_opened : Bool
  pub is_settled : Bool
  pub is_reconnecting : Bool

pub new_connection : Connection
new_connection = record {
  status = disconnected;
  epoch = 0;
  reconnect_attempts = 0;
  intentional_close = false;
  is_opened = false;
  is_settled = false;
  is_reconnecting = false;
}

unfoldable pub open_socket : Connection → Bool → Connection
open_socket c again = record c {
  epoch = c.epoch + 1;
  status = if again then reconnecting else connecting;
  is_opened = false;
  is_settled = false;
  is_reconnecting = again;
}

unfoldable pub connect : Connection → Connection
unfolding open_socket
connect c = open_socket (record c { intentional_close = false; reconnect_attempts = 0 }) false

unfoldable pub disconnect : Connection → Connection
disconnect c = record c { intentional_close = true; status = disconnected }

-- The delay of a reconnect, to which up to `jitterMs` are added.
unfoldable pub base_delay_ms : TransportProfile → ℕ → ℕ
base_delay_ms profile attempts =
    min (profile.reconnect.base_delay_ms * 2 ^ attempts) profile.reconnect.max_delay_ms

module _ (profile : TransportProfile) where
  unfoldable pub schedule_reconnect : Connection → Connection
  schedule_reconnect c =
      if c.intentional_close
      then c
      else if leb profile.reconnect.max_attempts c.reconnect_attempts
      then record c { status = failed }
      else record c { reconnect_attempts = c.reconnect_attempts + 1; status = reconnecting }

  -- `rejectOnce`, which `catch` follows when the socket was reopened.
  unfoldable pub reject_once : Connection → Connection
  reject_once c =
      if c.is_settled
      then c
      else if c.is_reconnecting
      then schedule_reconnect (record c { is_settled = true })
      else record c { is_settled = true }

  -- The callback of the timer.
  unfoldable pub fire_reconnect : Connection → Connection
  fire_reconnect c = if c.intentional_close then c else open_socket c true

  unfoldable pub on_open : Connection → ℕ → Connection
  on_open c epoch = if not (c.epoch == epoch) then c else record c {
    is_opened = true;
    reconnect_attempts = 0;
    status = connected;
    is_settled = true;
  }

  unfoldable pub on_error : Connection → ℕ → Connection
  on_error c epoch = if not c.is_opened && c.epoch == epoch then reject_once c else c

  -- `session_ended` for the code 4000 or the reason "session ended".
  unfoldable pub on_close : Connection → ℕ → Bool → Connection
  on_close c epoch session_ended =
      if not (c.epoch == epoch)
      then c
      else if not c.is_opened
      then reject_once c
      else if session_ended
      then record c { intentional_close = true; status = disconnected }
      else if c.intentional_close
      then record c { status = disconnected }
      else schedule_reconnect c

  -- The relay's message that the session has ended.
  unfoldable pub on_session_ended : Connection → ℕ → Connection
  on_session_ended c epoch =
      if not (c.epoch == epoch) then c else record c { intentional_close = true }

  pub data Event : Type 0 where
    connects disconnects fires : Event
    opens errs ends : ℕ → Event
    closes : ℕ → Bool → Event

  -- A timer may fire at any time: `connect` leaves one that is set, and setting one leaves the last.
  unfoldable pub step : Connection → Event → Connection
  step c connects = connect c
  step c disconnects = disconnect c
  step c fires = fire_reconnect c
  step c (opens epoch) = on_open c epoch
  step c (errs epoch) = on_error c epoch
  step c (ends epoch) = on_session_ended c epoch
  step c (closes epoch session_ended) = on_close c epoch session_ended

  unfoldable pub run : Connection → List Event → Connection
  run c [] = c
  run c (e ∷ es) = run (step c e) es
