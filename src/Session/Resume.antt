-- ===== src/Session/Resume.antt =====
-- The turns of client/src/session/SessionController.ts that begin with a call, a status or an event of the
-- relay, and what each task goes on with. Room codes are taken as normalised.
use Prim.Native.String.{String}
use onlytwo.Base.{ℕ, true, false, not, ◌||◌, none, some, [], ◌∷◌, ◌++◌, ◌==◌, if◌then◌else◌, Bytes}
use onlytwo.Config.Profile.{TransportProfileId}
use onlytwo.Config.Table.{get_profile}
use onlytwo.Transport.Reconnect.{ConnectionStatus}
use onlytwo.Protocol.Json.{utf16_length}
use onlytwo.Protocol.RelayControl.{RelayEvent}
use onlytwo.Session.{Session, Phase, VoiceState, Severity, patch, add_system, not_secure}
use onlytwo.Session.Calls.{
  Host, Answer, End, Later, prepared, Task, Turn, quiet, waits, Outside, create_relay_room,
  crypto_configure, hashing, lookup_room, sets_profile, transport_connect, checking, connecting,
  crypto_generate_identity, reliable_reset, requesting, identifying, securing, fails, phrasing,
  resetting, identity, room,
}
use onlytwo.Session.Lifecycle.{disconnected, disconnect_calls, prepare, failed_start}
use onlytwo.Session.Handshake.{
  is_known, send_handshake, send_initial, after_connected, after_prepared, thrown_handshake,
  handshake_hashed, handshake_checked, handshake_secured, handshake_phrased,
}

abbrev fresh_notice : String
fresh_notice = "Establishing a fresh secure session…"

module _ (h : Host) (o : Outside) where
  -- `prepareFreshCryptoEpoch`, after `crypto.reset()`.
  unfoldable pub epoch_reset : ℕ → Later → Session → Turn
  epoch_reset lifecycle later s =
      if lifecycle == s.lifecycle_epoch
      then waits s (crypto_configure s.profile ∷ crypto_generate_identity ∷ [])
          (identifying lifecycle later)
      else after_prepared h later o.stamp s

  -- `prepareFreshCryptoEpoch`, after `generateIdentity()`.
  unfoldable pub epoch_identified : ℕ → Later → Bytes → Session → Turn
  epoch_identified lifecycle later key s =
      let keyed = record s { local_public_key = some key } in
      let rest = after_prepared h later o.stamp in
      if not (lifecycle == s.lifecycle_epoch)
      then rest s
      else if not o.is_connected || s.initial_handshake_sent
      then rest keyed
      else send_handshake h (some key) (prepared later) (rest keyed)
          (record keyed { initial_handshake_sent = true })

  unfoldable pub create_room : Session → Turn
  create_room s =
      let begun = record s { startup_in_flight = true } in
      waits (patch begun (λ v. record v { phase = Phase.creating; notice = some "Creating room…" }))
        (create_relay_room s.view.profile_id ∷ []) (requesting Phase.creating)

  -- `joinRoom` of a code, which throws at once if it is not whole.
  unfoldable pub join_room : String → Session → Turn
  join_room code s =
      let begun = record s { startup_in_flight = true } in
      let looks =
        waits
          (patch begun (λ v. record v { phase = Phase.joining; notice = some "Looking up room…" }))
          (lookup_room code ∷ []) (requesting Phase.joining) in
      if utf16_length code == 9 then looks else quiet s

  abbrev pub start_notice : Phase → String
  start_notice Phase.creating = "Room created. Share the code."
  start_notice _ = "Joining room…"

  unfoldable pub started : String → Phase → TransportProfileId → Session → Session
  started code phase id s =
      let over = disconnected true false "" s in
      record over {
        profile = get_profile id;
        view = record over.view {
          phase = phase;
          room_code = code;
          profile_id = id;
          connection = ConnectionStatus.connecting;
          security = not_secure;
          safety_phrase = none;
          notice = some (start_notice phase);
          transcript = [];
          transfers = [];
          invalid_packets = 0;
          voice = VoiceState.idle;
          muted = false;
          audio_playback_blocked = false;
        };
      }

  -- `start`, up to its first await.
  unfoldable pub start : String → Phase → TransportProfileId → Session → Turn
  start code phase id s =
      let after = started code phase id s in
      waits after
        (disconnect_calls false
          ++ sets_profile (get_profile id)
            ∷ reliable_reset
            ∷ crypto_configure (get_profile id)
            ∷ crypto_generate_identity
            ∷ [])
        (Task.starting after.lifecycle_epoch code)

  -- `finally` of `createRoom` and `joinRoom`.
  abbrev pub not_starting : Session → Session
  not_starting s = record s { startup_in_flight = false }

  unfoldable pub start_identified : ℕ → String → Bytes → Session → Turn
  start_identified lifecycle code key s =
      if lifecycle == s.lifecycle_epoch
      then waits (record s { local_public_key = some key }) (transport_connect code ∷ [])
          (connecting lifecycle)
      else quiet (not_starting s)

  unfoldable pub start_connected : ℕ → Session → Turn
  start_connected lifecycle s =
      let waiting =
        patch s (λ v. record v {
          phase = Phase.waiting;
          notice = some "Waiting for the other person.";
        }) in
      if lifecycle == s.lifecycle_epoch
      then send_initial h End.starts waiting
      else quiet (not_starting s)

  unfoldable pub status_turn : ConnectionStatus → Session → Turn
  status_turn ConnectionStatus.reconnecting s =
      prepare o "Connection interrupted. Reconnecting securely…" Later.stays s
  status_turn ConnectionStatus.connected s =
      if is_known s.local_public_key
      then after_connected h s
      else prepare o fresh_notice Later.connected_again s
  status_turn ConnectionStatus.failed s = quiet (
      add_system o.stamp "Connection lost." Severity.error
        (patch s (λ v. record v { phase = Phase.failed; notice = some "Connection lost." })))
  status_turn _ s = quiet s

  unfoldable pub on_connection_status : ConnectionStatus → Session → Turn
  on_connection_status status s =
      let noted = patch s (λ v. record v { connection = status }) in status_turn status noted

  unfoldable pub on_relay_event : RelayEvent → Session → Turn
  on_relay_event RelayEvent.peer_present s =
      if is_known s.secure || (is_known s.peer_public_key || not (is_known s.local_public_key))
      then prepare o fresh_notice Later.greets s
      else send_initial h End.finish s
  on_relay_event RelayEvent.peer_disconnected s =
      prepare o "Peer disconnected. Waiting for rejoin…" Later.waits_for_rejoin s
  on_relay_event RelayEvent.peer_rejoined s =
      prepare o "Peer rejoined. Establishing a new secure session…" Later.welcomes s
  on_relay_event RelayEvent.session_ended s =
      waits (disconnected false true "Chat ended for both." s) (disconnect_calls true) Task.nothing

  -- What a task goes on with; an answer of another kind does not come.
  unfoldable pub resume : Task → Answer → Session → Turn
  resume (hashing m next) answer s = handshake_hashed h m next o s
  resume (checking m peer expected) answer s = handshake_checked h m peer expected o.stamp s
  resume (securing m peer) (fails reason) s = thrown_handshake s
  resume (securing m peer) Answer.done s = handshake_secured h m peer s
  resume (phrasing phrase) answer s = handshake_phrased h phrase o.stamp s
  resume (resetting lifecycle later) answer s = epoch_reset lifecycle later s
  resume (identifying lifecycle later) (identity key) s = epoch_identified lifecycle later key s
  resume (requesting phase) (room code id) s = start code phase id s
  resume (requesting phase) (fails reason) s = failed_start reason s
  resume (Task.starting lifecycle code) (identity key) s = start_identified lifecycle code key s
  resume (Task.starting lifecycle code) (fails reason) s = failed_start reason s
  resume (connecting lifecycle) Answer.done s = start_connected lifecycle s
  resume (connecting lifecycle) (fails reason) s = failed_start reason s
  resume _ answer s = quiet s
