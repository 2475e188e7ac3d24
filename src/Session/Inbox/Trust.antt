-- ===== src/Session/Inbox/Trust.antt =====
-- What a peer's message cannot change.
use onlytwo.Base.{◌≡◌, refl, Bool, Option, none, some, List, if_either}
use onlytwo.Protocol.Messages.{AppMessage, CoreAppMessage}
use onlytwo.Base.{◌||◌}
use onlytwo.Base.Dict.{same}
use onlytwo.Session.{Session, Stamp, add_system, system_said, add_transcript}
use onlytwo.Session.Calls.{Call}
use onlytwo.Protocol.Messages.{
  core, session_verified, text_message, file_offer, voice_start, voice_frame, voice_stop,
}
use onlytwo.Session.Inbox.{is_verified, is_valid_voice_start}
use onlytwo.Session.Inbox.{handle_core, handle_unwrapped, handle_app_message, voice_played}

-- Security, phrase, phase, channel and keys are as before.
pub record IsTrustKept (s t : Session) : Type 0 where
  pub security : t.view.security ≡ s.view.security
  pub phrase : t.view.safety_phrase ≡ s.view.safety_phrase
  pub phase : t.view.phase ≡ s.view.phase
  pub channel : t.secure ≡ s.secure
  pub own : t.local_public_key ≡ s.local_public_key
  pub peer : t.peer_public_key ≡ s.peer_public_key

abbrev pub IsKeptBy : Session → Option (Session × List Call) → Type 0
IsKeptBy s none = Unit
IsKeptBy s (some (t, calls)) = IsTrustKept s t

same_trust : (s : Session) → IsTrustKept s s
same_trust s = record {
  security = refl;
  phrase = refl;
  phase = refl;
  channel = refl;
  own = refl;
  peer = refl;
}

trusted :
    (s t : Session)
    → t.view.security ≡ s.view.security
    → t.view.safety_phrase ≡ s.view.safety_phrase
    → t.view.phase ≡ s.view.phase
    → t.secure ≡ s.secure
    → t.local_public_key ≡ s.local_public_key
    → t.peer_public_key ≡ s.peer_public_key
    → IsTrustKept s t
trusted s t a b c d e f = record {
  security = a;
  phrase = b;
  phase = c;
  channel = d;
  own = e;
  peer = f;
}

core_trust : (stamp : Stamp) (m : CoreAppMessage) (s : Session) → IsKeptBy s (handle_core stamp m s)
unfolding handle_core add_system system_said add_transcript
core_trust stamp (session_verified at) s =
    if_either (λ (t : Session). IsTrustKept s t) (is_verified s.view.security) (same_trust s)
      (trusted s _ refl refl refl refl refl refl)
core_trust stamp (text_message m) s = trusted s _ refl refl refl refl refl refl
core_trust stamp (file_offer m) s = trusted s _ refl refl refl refl refl refl
core_trust stamp (voice_start m) s =
    if_either (IsKeptBy s) (is_valid_voice_start m s) (trusted s _ refl refl refl refl refl refl) tt
core_trust stamp (voice_frame m) s = if_either (IsKeptBy s) s.remote_voice_active (same_trust s) tt
core_trust stamp (voice_stop stream_id) s =
    if_either (IsKeptBy s) (same stream_id "voice") (trusted s _ refl refl refl refl refl refl) tt
core_trust stamp _ s = same_trust s

app_trust :
    (stamp : Stamp) (m : AppMessage) (s : Session) → IsKeptBy s (handle_app_message stamp m s)
unfolding handle_app_message
app_trust stamp (core m) s = core_trust stamp m s
app_trust stamp _ s = same_trust s

unwrapped_trust :
    (stamp : Stamp) (m : Option CoreAppMessage) (s : Session)
    → IsKeptBy s (handle_unwrapped stamp m s)
unfolding handle_unwrapped
unwrapped_trust stamp none s = same_trust s
unwrapped_trust stamp (some m) s = core_trust stamp m s

played_trust :
    (playing : Bool) (stamp : Stamp) (s : Session) → IsTrustKept s (voice_played playing stamp s)
unfolding voice_played add_system system_said
played_trust playing stamp s =
    if_either (IsTrustKept s) (playing || s.view.audio_playback_blocked) (same_trust s)
      (trusted s _ refl refl refl refl refl refl)

-- Whatever message a peer sends, wrapped for reliable delivery or not, handling it either throws or leaves
-- the security state, the safety phrase, the phase, the channel and both keys as they are; so does
-- what the reliable channel unwraps, and a frame that is not played.
pub peer_keeps_trust :
    (stamp : Stamp) (m : AppMessage) (unwrapped : Option CoreAppMessage) (playing : Bool)
    (s : Session)
    → IsKeptBy s (handle_app_message stamp m s)
      × IsKeptBy s (handle_unwrapped stamp unwrapped s)
      × IsTrustKept s (voice_played playing stamp s)
peer_keeps_trust stamp m unwrapped playing s =
    (app_trust stamp m s, unwrapped_trust stamp unwrapped s, played_trust playing stamp s)
