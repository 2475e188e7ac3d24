-- ===== src/Session/Lifecycle.antt =====
-- The parts of client/src/session/SessionController.ts that end an epoch: `disconnect`, the first turn of
-- `prepareFreshCryptoEpoch`, and how a failed start or a dropped packet ends. `cryptoSerial`, which is
-- a queue of promises, and `epochPreparation`, which is not set when a new task runs, are left out.
use Prim.Native.String.{String}
use onlytwo.Base.{
  ◌+◌, ◌%◌, Bool, true, false, ◌||◌, Option, none, some, List, [], ◌∷◌, ◌==◌, if◌then◌else◌,
}
use onlytwo.Session.{
  Session, SessionViewState, Phase, VoiceState, ItemKind, TranscriptItem, not_secure, ItemStatus,
  Severity, patch, system_said, status_updated, kind_eq,
}
use onlytwo.Transport.Reconnect.{ConnectionStatus}
use onlytwo.Session.Calls.{
  Call, Failure, Outside, Task, Later, resetting, Turn, waits, quiet, clear_end_timer,
  clear_voice_queues, voice_stop, sender_reset, receiver_reset, transport_disconnect, crypto_reset,
  reliable_reset, transport_clear_queued_packets, reliable_fail_all,
}

module _ (silent : Bool) (forget_slot : Bool) (notice : String) where
  ended : SessionViewState → SessionViewState
  ended v = record v {
    phase = Phase.ended;
    connection = ConnectionStatus.disconnected;
    security = not_secure;
    safety_phrase = none;
    voice = VoiceState.idle;
    muted = false;
    audio_playback_blocked = false;
    notice = some notice;
    transcript = [];
    transfers = [];
  }

  unfoldable pub disconnected : Session → Session
  unfolding ended
  disconnected s = record s {
    view = if silent then s.view else ended s.view;
    lifecycle_epoch = s.lifecycle_epoch + 1;
    secure_epoch = s.secure_epoch + 1;
    establishing = false;
    initial_handshake_sent = false;
    reply_handshake_sent = false;
    remote_voice_active = false;
    secure = none;
    local_public_key = none;
    peer_public_key = none;
    transfer_order = [];
  }

abbrev pub disconnect_calls : Bool → List Call
disconnect_calls forget_slot =
    clear_end_timer
    ∷ clear_voice_queues
    ∷ voice_stop
    ∷ sender_reset
    ∷ receiver_reset
    ∷ transport_disconnect forget_slot
    ∷ crypto_reset
    ∷ reliable_reset
    ∷ []

abbrev pub mark : Option String → SessionViewState → SessionViewState
mark none v = v
mark (some id) v = status_updated id ItemStatus.failed v

-- `onFailed` of the reliable channel.
unfoldable pub on_failed : String → Failure → SessionViewState → SessionViewState
on_failed reason f v =
    let marked = mark f.tracking_id v in
    system_said f.stamp reason Severity.error (record marked { notice = some reason })

unfoldable pub fail_all : String → List Failure → SessionViewState → SessionViewState
fail_all reason [] v = v
fail_all reason (f ∷ fs) v = fail_all reason fs (on_failed reason f v)

-- `.filter((item) => item.kind !== "file")`
unfoldable pub without_files : List TranscriptItem → List TranscriptItem
without_files [] = []
without_files (i ∷ is) =
    if kind_eq i.kind ItemKind.file then without_files is else i ∷ without_files is

abbrev pub session_changed : String
session_changed = "Session changed. Unsent messages were not delivered."

unfoldable pub fresh_epoch : List Failure → String → Session → Session
fresh_epoch pending notice s =
    let told = fail_all session_changed pending s.view in
    record s {
      view = record told {
        phase = Phase.waiting;
        security = not_secure;
        safety_phrase = none;
        voice = VoiceState.idle;
        muted = false;
        audio_playback_blocked = false;
        transfers = [];
        transcript = without_files told.transcript;
        notice = some notice;
      };
      secure_epoch = s.secure_epoch + 1;
      establishing = false;
      initial_handshake_sent = false;
      reply_handshake_sent = false;
      remote_voice_active = false;
      transfer_order = [];
      secure = none;
      local_public_key = none;
      peer_public_key = none;
    }

-- `prepareFreshCryptoEpoch`, up to `await this.crypto.reset()`.
unfoldable pub prepare : Outside → String → Later → Session → Turn
prepare o notice later s =
    waits (fresh_epoch o.pending notice s)
      (transport_clear_queued_packets
        ∷ clear_voice_queues
        ∷ voice_stop
        ∷ sender_reset
        ∷ receiver_reset
        ∷ reliable_fail_all session_changed
        ∷ reliable_reset
        ∷ crypto_reset
        ∷ [])
      (resetting s.lifecycle_epoch later)

-- The `catch` and `finally` of `createRoom` and `joinRoom`.
unfoldable pub failed_start : String → Session → Turn
failed_start reason s =
    let over = disconnected true false "" s in
    waits
      (record over {
        view = record over.view { phase = Phase.idle; room_code = ""; notice = some reason };
        startup_in_flight = false;
      })
      (disconnect_calls false) Task.nothing

-- The `catch` of `onEnvelope`.
unfoldable pub drop_packet : Session → Turn
drop_packet s =
    let count = s.view.invalid_packets + 1 in
    let warns = count == 3 || count % 20 == 0 in
    quiet (
      patch s (λ v. record v {
        invalid_packets = count;
        notice = if warns then some "Network unstable. Some packets were dropped." else v.notice;
      }))
