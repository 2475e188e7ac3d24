-- ===== src/Session/Actions.antt =====
-- What the user does, in client/src/session/SessionController.ts: each method up to an await, and what
-- follows it. Texts are trimmed, and messages made, by client/src/features/text/TextService.ts.
use Prim.Native.String.{String}
use onlytwo.Base.{
  ℕ, Bool, true, false, not, ◌||◌, Option, none, some, List, [], ◌∷◌, ◌==◌, if◌then◌else◌,
}
use onlytwo.Config.Lanes
use onlytwo.Config.Profile.{TransportProfileId}
use onlytwo.Config.Table.{get_profile}
use onlytwo.Protocol.Json.{utf16_length}
use onlytwo.Protocol.Messages
use onlytwo.Protocol.Messages.{TextMessage, core, text_message, session_verified}
use onlytwo.Session.{
  Session, Phase, SecurityState, VoiceState, TranscriptItem, TransferView, ItemKind, ItemStatus,
  Author, Severity, Stamp, patch, add_system, add_transcript, update_transcript_status,
}
use onlytwo.Session.Calls
use onlytwo.Session.Lifecycle.{disconnected, disconnect_calls}
use onlytwo.Session.Handshake.{is_known}
use onlytwo.Session.Transfers.{
  is_over, is_sent, is_of, is_voice_active, has_active_file, remove_transfer_view,
  ensure_transfer_order,
}

abbrev Acted : Type 0
Acted = Session × List Calls.Call

abbrev pub is_idle_phase : Phase → Bool
is_idle_phase Phase.idle = true
is_idle_phase Phase.ended = true
is_idle_phase _ = false

abbrev pub is_idle_voice : VoiceState → Bool
is_idle_voice VoiceState.idle = true
is_idle_voice _ = false

abbrev pub notices : String → Session → Session
notices said s = patch s (λ v. record v { notice = some said })

-- The patch of a session that is not ready.
abbrev pub unready : Session → Session
unready s = patch s (λ v. record v {
  security = SecurityState.not_secure;
  notice = some "Encryption is not ready. Leave and rejoin this room.";
})

unfoldable pub set_profile : TransportProfileId → Session → Acted
set_profile id s =
    let chosen = record s { profile = get_profile id; view = record s.view { profile_id = id } } in
    if is_idle_phase s.view.phase
    then (chosen, Calls.sets_profile (get_profile id) ∷ [])
    else (s, [])

abbrev pub own_item : TextMessage → TranscriptItem
own_item m = record {
  id = m.message_id;
  kind = ItemKind.text;
  author = Author.me;
  text = m.body;
  at = m.created_at;
  status = some ItemStatus.sending;
  severity = none;
  file_id = none;
}

-- `sendText` of a trimmed text, of which `createTextMessage` makes the message.
unfoldable pub send_text : TextMessage → Session → Acted
send_text m s =
    if utf16_length m.body == 0
    then (s, [])
    else if is_known s.secure
    then (add_transcript s (own_item m), Calls.send_app (core (text_message m)) Lanes.text ∷ [])
    else (unready s, [])

unfoldable pub text_sent : Bool → TextMessage → Session → Session
text_sent ok m s = if ok then s else update_transcript_status m.message_id ItemStatus.failed s

unfoldable pub offer_file : Session → Acted
offer_file s =
    let queued = is_voice_active s.view.voice || has_active_file s.view.transfers in
    if is_known s.secure
    then (s, Calls.sender_offer queued ∷ [])
    else (notices "Encryption is not ready." s, [])

-- The rest of `offerFile`, with its two variables.
unfoldable pub file_offered : String → Bool → Bool → Stamp → Session → Session
file_offered id queued voice_active stamp s =
    let listed = record s { transfer_order = ensure_transfer_order id s.transfer_order } in
    let said = if voice_active then "File queued until voice ends." else "File queued." in
    if queued then add_system stamp said Severity.info listed else listed

-- `transfers.find((item) => item.fileId === fileId)`
unfoldable pub find_transfer : String → List TransferView → Option TransferView
find_transfer id [] = none
find_transfer id (t ∷ ts) = if is_of id t then some t else find_transfer id ts

unfoldable pub cancel_found : Option TransferView → List Calls.Call
cancel_found none = []
cancel_found (some t) =
    let cancels =
      if is_sent t.direction
      then Calls.sender_cancel t.file_id "cancelled" true
      else Calls.receiver_cancel t.file_id "cancelled" in
    cancels ∷ Calls.start_next_queued_file_if_allowed ∷ []

unfoldable pub cancel_file : String → Session → Acted
cancel_file id s = (s, cancel_found (find_transfer id s.view.transfers))

abbrev pub is_over_found : Option TransferView → Bool
is_over_found none = false
is_over_found (some t) = is_over t.state

unfoldable pub remove_file : String → Session → Acted
remove_file id s =
    if is_over_found (find_transfer id s.view.transfers)
    then (remove_transfer_view id s, Calls.sender_remove id ∷ Calls.receiver_remove id ∷ [])
    else (s, [])

unfoldable pub start_voice : Session → Acted
start_voice s =
    let starting = patch s (λ v. record v {
      voice = VoiceState.starting;
      audio_playback_blocked = false;
      notice = some "Starting voice…";
    }) in
    let calls =
      Calls.clear_voice_queues ∷ Calls.update_file_pause_for_voice ∷ Calls.voice_start ∷ [] in
    if not (is_known s.secure)
    then (notices "Encryption is not ready." s, [])
    else if is_idle_voice s.view.voice
    then (starting, calls)
    else (s, [])

-- `startVoice`, once the microphone runs at `sample_rate`.
unfoldable pub voice_started : ℕ → Stamp → Session → Acted
voice_started sample_rate stamp s =
    let active = patch s (λ v. record v {
      voice = VoiceState.active;
      muted = false;
      audio_playback_blocked = false;
      notice = some "Voice active. Files are paused.";
    }) in
    let message = core (
      Messages.voice_start (record {
        stream_id = "voice";
        sample_rate = sample_rate;
        frame_ms = s.profile.voice.frame_ms;
        mode = some s.profile.voice.mode;
      })) in
    (
      add_system stamp "Voice started." Severity.info active,
      Calls.send_app message Lanes.control ∷ [],
    )

-- `said` is "Voice unavailable: " and the reason.
unfoldable pub voice_failed : String → String → Stamp → Session → Acted
voice_failed reason said stamp s =
    let failed = patch s (λ v. record v { voice = VoiceState.failed; notice = some reason }) in
    (
      add_system stamp said Severity.error failed,
      Calls.clear_voice_queues ∷ Calls.voice_stop ∷ Calls.update_file_pause_for_voice ∷ [],
    )

unfoldable pub stop_voice : Session → Acted
stop_voice s =
    let message = core (Messages.voice_stop "voice") in
    if is_idle_voice s.view.voice then (s, []) else (
      s,
      Calls.clear_voice_queues ∷ Calls.voice_stop ∷ Calls.send_app message Lanes.control ∷ [],
    )

unfoldable pub voice_stopped : Stamp → Session → Acted
voice_stopped stamp s =
    let idle = patch s (λ v. record v {
      voice = VoiceState.idle;
      muted = false;
      audio_playback_blocked = false;
      notice = some "Voice ended.";
    }) in
    (add_system stamp "Voice ended." Severity.info idle, Calls.update_file_pause_for_voice ∷ [])

abbrev pub is_talking : VoiceState → Bool
is_talking VoiceState.active = true
is_talking VoiceState.muted = true
is_talking _ = false

unfoldable pub toggle_mute : Session → Acted
toggle_mute s =
    let muted = not s.view.muted in
    let toggled = patch s (λ v. record v {
      muted = muted;
      voice = if muted then VoiceState.muted else VoiceState.active;
    }) in
    if is_talking s.view.voice
    then (
      toggled,
      Calls.voice_set_muted muted ∷ (if muted then Calls.clear_outbound_voice_queue ∷ [] else []),
    )
    else (s, [])

unfoldable pub playback_enabled : Bool → Session → Session
playback_enabled enabled s = patch s (λ v. record v {
  audio_playback_blocked = not enabled;
  notice = some (
      if enabled
      then "Audio playback enabled."
      else "Audio playback is still blocked by this browser.");
})

unfoldable pub mark_verified : Bool → ℕ → Stamp → Session → Acted
mark_verified matches now stamp s =
    let mismatch = add_system stamp "Verification mismatch. End this chat." Severity.error (
      patch s (λ v. record v {
        security = SecurityState.verification_failed;
        notice = some "Verification mismatch. End this chat.";
      })) in
    let verified = add_system stamp "Secure session verified." Severity.info (
      patch s (λ v. record v {
        security = SecurityState.verified;
        notice = some "Verified on this device.";
      })) in
    if not (is_known s.secure)
    then (unready s, [])
    else if matches
    then (verified, Calls.send_app (core (session_verified now)) Lanes.control ∷ [])
    else (mismatch, [])

-- `sent` is what `transport.endSession()` answers.
unfoldable pub end_chat_for_both : Bool → Session → Acted
end_chat_for_both sent s =
    if is_idle_phase s.view.phase
    then (s, [])
    else if sent
    then (
      notices "Ending chat for both…" s,
      Calls.clear_end_timer ∷ Calls.transport_end_session ∷ Calls.set_end_timer ∷ [],
    )
    else (
      disconnected false true "Chat ended on this device." s,
      Calls.clear_end_timer ∷ Calls.transport_end_session ∷ disconnect_calls true,
    )
