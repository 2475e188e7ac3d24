-- ===== src/Session/System.antt =====
-- client/src/session/SessionController.ts as a whole, with the two tasks that run at a time: one of
-- `inboundSerial`, and `createRoom` or `joinRoom`. An inbound event that finds a task waits, and is
-- another event later.
pub mod Frugal
pub mod Turns
pub mod Resumed
pub mod Account
pub mod Limit
pub mod Overtaken
use onlytwo.Session.Resume.{create_room, join_room, on_connection_status, on_relay_event, resume}
use Prim.Native.String.{String}
use onlytwo.Base.{
  ℕ, Bool, true, false, not, ◌||◌, ◌&&◌, Option, none, some, List, [], ◌∷◌, ◌++◌, ◌==◌,
  if◌then◌else◌, Bytes,
}
use onlytwo.Config.Profile.{TransportProfile, TransportProfileId, balanced}
use onlytwo.Config.Table.{get_profile}
use onlytwo.Transport.Reconnect.{ConnectionStatus}
use onlytwo.Protocol.Envelope.{Envelope}
use onlytwo.Protocol.Json.{utf16_length}
use onlytwo.Protocol.RelayControl.{RelayEvent}
use onlytwo.Session.{
  Session, SessionViewState, Phase, SecurityState, VoiceState, Stamp, Severity, patch, add_system,
  not_secure, starting,
}
use onlytwo.Session.Calls.{
  Host, Call, Answer, End, Later, Next, ends, prepared, Task, Turn, quiet, waits, Outside,
  create_relay_room, crypto_configure, hashing, lookup_room, sets_profile, transport_connect,
  checking, connecting, crypto_generate_identity, reliable_reset, requesting, identifying, securing,
  fails, phrasing, resetting, transport_send, identity, room,
}
use onlytwo.Session.Lifecycle.{
  disconnected, disconnect_calls, fresh_epoch, prepare, failed_start, drop_packet,
}
use onlytwo.Session.Handshake.{
  is_known, send_handshake, send_initial, after_connected, after_prepared, thrown_handshake,
  handshake_hashed, on_handshake, handshake_checked, handshake_secured, handshake_phrased,
}

pub record System : Type 0 where
  pub session : Session
  pub inbound : Task
  pub startup : Task

pub data Event : Type 0 where
  handshake_arrives : ℕ → Envelope → Event
  status_changes : ℕ → ConnectionStatus → Event
  relay_says : ℕ → RelayEvent → Event
  inbound_goes_on startup_goes_on : Answer → Event
  creates_room : Event
  joins_room : String → Event
  disconnects : Bool → Bool → String → Event

abbrev pub is_idle : Task → Bool
is_idle Task.nothing = true
is_idle _ = false

abbrev pub with_inbound : System → Turn → System × List Call
with_inbound sys t = (record sys { session = t.after; inbound = t.task }, t.calls)

abbrev pub with_startup : System → Turn → System × List Call
with_startup sys t = (record sys { session = t.after; startup = t.task }, t.calls)

-- An inbound task begins when none runs, and is skipped when its epoch has passed.
unfoldable pub begin_inbound : System → Bool → Turn → System × List Call
begin_inbound sys is_current t =
    if is_idle sys.inbound && is_current then with_inbound sys t else (sys, [])

module _ (h : Host) (o : Outside) where
  unfoldable pub step : System → Event → System × List Call
  step sys (handshake_arrives epoch env) =
      begin_inbound sys true (on_handshake h epoch env sys.session)
  step sys (status_changes lifecycle status) =
      begin_inbound sys (lifecycle == sys.session.lifecycle_epoch)
        (on_connection_status h o status sys.session)
  step sys (relay_says lifecycle event) =
      begin_inbound sys (lifecycle == sys.session.lifecycle_epoch)
        (on_relay_event h o event sys.session)
  step sys (inbound_goes_on answer) = with_inbound sys (resume h o sys.inbound answer sys.session)
  step sys (startup_goes_on answer) = with_startup sys (resume h o sys.startup answer sys.session)
  step sys creates_room =
      if sys.session.startup_in_flight
      then (sys, [])
      else with_startup sys (create_room h o sys.session)
  step sys (joins_room code) =
      if sys.session.startup_in_flight
      then (sys, [])
      else with_startup sys (join_room h o code sys.session)
  step sys (disconnects silent forget_slot notice) = (
    record sys { session = disconnected silent forget_slot notice sys.session },
    disconnect_calls forget_slot,
  )

abbrev pub new_view : SessionViewState
new_view = record {
  phase = Phase.idle;
  room_code = "";
  profile_id = balanced;
  connection = ConnectionStatus.disconnected;
  security = not_secure;
  safety_phrase = none;
  notice = none;
  voice = VoiceState.idle;
  muted = false;
  audio_playback_blocked = false;
  invalid_packets = 0;
  transcript = [];
  transfers = [];
}

abbrev pub new_session : Session
new_session = record {
  view = new_view;
  profile = get_profile balanced;
  secure = none;
  local_public_key = none;
  peer_public_key = none;
  initial_handshake_sent = false;
  reply_handshake_sent = false;
  establishing = false;
  lifecycle_epoch = 0;
  secure_epoch = 0;
  startup_in_flight = false;
  remote_voice_active = false;
  transfer_order = [];
}

abbrev pub new_system : System
new_system = record { session = new_session; inbound = Task.nothing; startup = Task.nothing }

-- The packets of a turn, all of which are handshakes, each as the epoch it was sent in.
unfoldable pub sends : ℕ → List Call → List ℕ
sends epoch [] = []
sends epoch (transport_send env ∷ cs) = epoch ∷ sends epoch cs
sends epoch (c ∷ cs) = sends epoch cs

-- The systems that are reached, each with the epochs of the handshakes sent so far.
pub data IsReached (h : Host) : System → List ℕ → Type 0 where
  begins : IsReached h new_system []
  steps :
      (sys : System) (sent : List ℕ) (o : Outside) (e : Event)
      → IsReached h sys sent
      → IsReached h (step h o sys e).0 (sends sys.session.secure_epoch (step h o sys e).1 ++ sent)
