-- ===== src/Session/Calls.antt =====
-- What `SessionController` takes from outside, and how one of its `async` methods is cut at its awaits:
-- a turn runs up to the next await, and leaves a task that says what goes on after it.
use Prim.Native.String.{String}
use onlytwo.Base.{ℕ, Bool, Option, List, [], Bytes, replicate}
use onlytwo.Config.Lanes.{Lane, control}
use onlytwo.Protocol.Messages.{AppMessage, FileOffer, FileChunk, VoiceFrame}
use onlytwo.Config.Profile.{TransportProfile, TransportProfileId}
use onlytwo.Config.Table.{profile_key}
use onlytwo.Crypto.Platform.{Platform}
use onlytwo.Protocol.Json.{Fields}
use onlytwo.Protocol.Envelope.{Envelope, handshake_type}
use onlytwo.Protocol.Handshake.{HandshakeMessage, handshake_fields}
use onlytwo.Protocol.Negotiation.{app_version, feature_flags, profile_hash}
use onlytwo.Session.{Session, Phase, Stamp}

-- The browser: WebCrypto, `JSON` with `TextEncoder` and `TextDecoder`, and base64url. `none` is a
-- thrown error.
pub record Host : Type 0 where
  pub platform : Platform
  pub profile_text : TransportProfile → String  -- `profileHashInput`
  pub object_bytes : Fields → Bytes
  pub parse_object : Bytes → Option Fields
  pub bytes_to_base64url : Bytes → String
  pub base64url_to_bytes : String → Option Bytes

-- The calls of other objects. `sets_profile` is `setProfile` of the transport, the voice service, the
-- sender and the receiver, with `updateVoiceQueueLimits`.
pub data Call : Type 0 where
  transport_send : Envelope → Call
  transport_connect : String → Call
  transport_disconnect : Bool → Call
  transport_clear_queued_packets transport_end_session : Call
  crypto_reset crypto_generate_identity : Call
  crypto_configure : TransportProfile → Call
  crypto_establish_session : Bytes → String → Call
  voice_stop clear_voice_queues : Call
  sender_reset receiver_reset reliable_reset : Call
  reliable_fail_all : String → Call
  update_file_pause_for_voice : Call
  sets_profile : TransportProfile → Call
  create_relay_room : TransportProfileId → Call
  lookup_room : String → Call
  clear_end_timer set_end_timer : Call
  sender_remove receiver_remove sender_start_queued : String → Call
  start_next_queued_file_if_allowed : Call
  reliable_receive : AppMessage → Call
  receiver_offer : FileOffer → Call
  receiver_chunk : FileChunk → Call
  receiver_complete_notice : String → Option String → Call
  receiver_peer_cancel receiver_cancel : String → String → Call
  sender_accept sender_resume : String → Call
  sender_cancel : String → String → Bool → Call  -- the last is `notify`
  sender_ack : String → ℕ → Call
  sender_nack : String → ℕ → String → Call
  sender_pause : String → String → Call
  sender_offer : Bool → Call  -- of the file that the user chose; `queued`
  voice_play : VoiceFrame → Call
  voice_start voice_stop_playback voice_enable_playback clear_inbound_voice : Call
  clear_outbound_voice_queue : Call
  voice_set_muted : Bool → Call
  send_app : AppMessage → Lane → Call

-- What is left to do after a handshake was sent: nothing, the rest of `onConnectionStatus`, of
-- `handleHandshake`, or of `start`.
pub data End : Type 0 where
  finish pauses_files starts : End
  answers : HandshakeMessage → Bytes → End

-- What is left to do after `prepareFreshCryptoEpoch`.
pub data Later : Type 0 where
  stays connected_again greets waits_for_rejoin welcomes : Later

pub data Next : Type 0 where
  ends : End → Next
  prepared : Later → Next

-- What `sendHandshake` keeps over its await.
pub record Sending : Type 0 where
  pub key : Bytes
  pub lifecycle : ℕ
  pub epoch : ℕ
  pub profile : TransportProfile

pub data Task : Type 0 where
  nothing : Task
  hashing : Sending → Next → Task
  checking : HandshakeMessage → Bytes → String → Task
  securing : HandshakeMessage → Bytes → Task
  phrasing : Option String → Task
  resetting : ℕ → Later → Task
  identifying : ℕ → Later → Task
  requesting : Phase → Task
  starting : ℕ → String → Task
  connecting : ℕ → Task

pub record Turn : Type 0 where
  pub after : Session
  pub calls : List Call
  pub task : Task

abbrev pub quiet : Session → Turn
quiet s = record { after = s; calls = []; task = nothing }

abbrev pub waits : Session → List Call → Task → Turn
waits s calls task = record { after = s; calls = calls; task = task }

-- A message that `failAll` of the reliable channel gives up.
pub record Failure : Type 0 where
  pub tracking_id : Option String
  pub stamp : Stamp

-- What the turn finds outside: whether `transport.send` takes a packet, whether the transport is
-- connected, the messages that are pending, and a fresh stamp.
pub record Outside : Type 0 where
  pub accepts : Bool
  pub is_connected : Bool
  pub pending : List Failure
  pub stamp : Stamp

-- How an awaited promise ends.
pub data Answer : Type 0 where
  done : Answer
  identity : Bytes → Answer
  room : String → TransportProfileId → Answer
  fails : String → Answer

module _ (h : Host) where
  abbrev pub hash_of : TransportProfile → String
  hash_of profile = profile_hash h.platform h.profile_text profile

  unfoldable pub handshake_of : Bytes → TransportProfile → HandshakeMessage
  handshake_of key profile = record {
    public_key = h.bytes_to_base64url key;
    profile_id = profile_key profile.id;
    profile_hash = hash_of profile;
    app_version = app_version;
    feature_flags = feature_flags;
  }

  unfoldable pub handshake_envelope : Bytes → TransportProfile → Envelope
  handshake_envelope key profile = record {
    context = record {
      protocol_version = profile.protocol_version;
      outer_type = handshake_type;
      flags = 0;
      stream_id = 0;
      sequence = 0;
    };
    counter = 0;
    nonce = replicate 12 0;
    payload = h.object_bytes (handshake_fields (handshake_of key profile));
    lane = control;
  }
