-- ===== src/Session/Inbox.antt =====
-- `handleAppMessage` of client/src/session/SessionController.ts. Each case is a turn up to its last await;
-- `none` is a thrown error. What a message does to files, voice and the reliable channel is a call.
pub mod Trust
use Prim.Native.String.{String}
use onlytwo.Base.{
  ℕ, Bool, true, false, not, ◌&&◌, ◌||◌, Option, none, some, List, [], ◌∷◌, ltb, ◌==◌,
  if◌then◌else◌,
}
use onlytwo.Base.Dict.{same}
use onlytwo.Config.Profile.{VoicePrivacyMode, efficient, maximum_privacy}
use onlytwo.Protocol.Messages.{
  AppMessage, CoreAppMessage, TextMessage, VoiceStart, core, reliable_msg, reliable_ack,
  reliable_nack, session_verified, text_message, file_offer, file_accept, file_reject, file_chunk,
  file_ack, file_nack, file_pause, file_resume, file_cancel, file_complete, voice_start,
  voice_frame, voice_stop,
}
use onlytwo.Session.{
  Session, SessionViewState, SecurityState, verified, TranscriptItem, ItemKind, ItemStatus, Author,
  Severity, Stamp, patch, add_system, add_transcript,
}
use onlytwo.Session.Calls
use onlytwo.Session.Transfers.{ensure_transfer_order}

abbrev Done : Type 0
Done = Option (Session × List Calls.Call)

abbrev pub is_verified : SecurityState → Bool
is_verified verified = true
is_verified _ = false

abbrev pub is_mode : VoicePrivacyMode → Option VoicePrivacyMode → Bool
is_mode m none = true
is_mode efficient (some efficient) = true
is_mode maximum_privacy (some maximum_privacy) = true
is_mode _ _ = false

-- `validateRemoteVoiceStart`
unfoldable pub is_valid_voice_start : VoiceStart → Session → Bool
is_valid_voice_start m s =
    (same m.stream_id "voice" && m.frame_ms == s.profile.voice.frame_ms)
    && (is_mode s.profile.voice.mode m.mode
        && (not (ltb m.sample_rate 8000) && not (ltb 192000 m.sample_rate)))

abbrev pub text_item : TextMessage → TranscriptItem
text_item m = record {
  id = m.message_id;
  kind = ItemKind.text;
  author = Author.peer;
  text = m.body;
  at = m.created_at;
  status = some ItemStatus.sent;
  severity = none;
  file_id = none;
}

abbrev pub told : Stamp → String → String → Session → Session
told stamp notice said s =
    add_system stamp said Severity.info (patch s (λ v. record v { notice = some notice }))

unfoldable pub handle_core : Stamp → CoreAppMessage → Session → Done
handle_core stamp (session_verified at) s =
    let marked =
      told stamp "Peer marked this chat verified." "Peer marked the secure session as verified."
        s in
    some (if is_verified s.view.security then s else marked, [])
handle_core stamp (text_message m) s = some (add_transcript s (text_item m), [])
handle_core stamp (file_offer m) s = some (
  record s { transfer_order = ensure_transfer_order m.file_id s.transfer_order },
  Calls.receiver_offer m ∷ [],
)
handle_core stamp (file_accept id) s = some (s, Calls.sender_accept id ∷ [])
handle_core stamp (file_reject id reason) s =
    some (s, Calls.sender_cancel id reason false ∷ Calls.start_next_queued_file_if_allowed ∷ [])
handle_core stamp (file_chunk m) s = some (s, Calls.receiver_chunk m ∷ [])
handle_core stamp (file_ack id index) s = some (s, Calls.sender_ack id index ∷ [])
handle_core stamp (file_nack id index reason) s = some (s, Calls.sender_nack id index reason ∷ [])
handle_core stamp (file_pause id reason) s = some (s, Calls.sender_pause id reason ∷ [])
handle_core stamp (file_resume id) s = some (s, Calls.sender_resume id ∷ [])
handle_core stamp (file_cancel id reason) s = some (
  s,
  Calls.sender_cancel id reason false
      ∷ Calls.receiver_peer_cancel id reason
      ∷ Calls.start_next_queued_file_if_allowed
      ∷ [],
)
handle_core stamp (file_complete id sha256) s =
    some (s, Calls.receiver_complete_notice id sha256 ∷ [])
handle_core stamp (voice_start m) s =
    let started =
      told stamp "Peer started voice." "Peer started voice."
        (record s { remote_voice_active = true }) in
    if is_valid_voice_start m s
    then some (started, Calls.update_file_pause_for_voice ∷ [])
    else none
handle_core stamp (voice_frame m) s =
    if s.remote_voice_active then some (s, Calls.voice_play m ∷ []) else none
handle_core stamp (voice_stop stream_id) s =
    let stopped =
      patch (record s { remote_voice_active = false })
        (λ v. record v { audio_playback_blocked = false; notice = some "Peer ended voice." }) in
    let calls =
      Calls.clear_inbound_voice ∷ Calls.voice_stop_playback ∷ Calls.update_file_pause_for_voice
      ∷ [] in
    if same stream_id "voice"
    then some (add_system stamp "Peer ended voice." Severity.info stopped, calls)
    else none

-- The case "voice.frame", once it is known whether the frame is played.
unfoldable pub voice_played : Bool → Stamp → Session → Session
voice_played playing stamp s =
    let blocked = add_system stamp "Incoming voice is blocked. Tap Enable audio." Severity.error (
      patch s (λ v. record v {
        audio_playback_blocked = true;
        notice = some "Incoming voice is blocked. Tap Enable audio.";
      })) in
    if playing || s.view.audio_playback_blocked then s else blocked

-- What is left once `reliable.receive` has answered.
unfoldable pub handle_unwrapped : Stamp → Option CoreAppMessage → Session → Done
handle_unwrapped stamp none s = some (s, [])
handle_unwrapped stamp (some m) s = handle_core stamp m s

unfoldable pub handle_app_message : Stamp → AppMessage → Session → Done
handle_app_message stamp (core m) s = handle_core stamp m s
handle_app_message stamp m s = some (s, Calls.reliable_receive m ∷ [])
