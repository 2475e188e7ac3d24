-- ===== src/Protocol/Messages.antt =====
-- client/src/protocol/appMessages.ts: the messages, and their encoding as JSON objects. What
-- `JSON.parse` and `JSON.stringify` do between objects and text is not modelled here.
pub mod Decode
pub mod Fit
pub mod Sound
pub mod Roundtrip
pub mod Tests
use Prim.Native.String.{String}
use onlytwo.Base.{ℕ, Bool, true, false, Option, none, some}
use onlytwo.Config.Profile.{VoicePrivacyMode, efficient, maximum_privacy}
use onlytwo.Protocol.Json.{Json, Fields, number, whole, string, object, no_fields, field}
use onlytwo.Protocol.Reliable.{ReliableChannelName}
use onlytwo.Protocol.Reliable

pub record TextMessage : Type 0 where
  pub message_id : String
  pub body : String
  pub created_at : ℕ

pub record FileOffer : Type 0 where
  pub file_id : String
  pub name : String
  pub mime : String
  pub size : ℕ
  pub chunk_size : ℕ
  pub total_chunks : ℕ
  pub sha256 : Option String

pub record FileChunk : Type 0 where
  pub file_id : String
  pub index : ℕ
  pub total_chunks : ℕ
  pub content : String

pub record VoiceStart : Type 0 where
  pub stream_id : String
  pub sample_rate : ℕ
  pub frame_ms : ℕ
  pub mode : Option VoicePrivacyMode

pub record VoiceFrame : Type 0 where
  pub stream_id : String
  pub seq : ℕ
  pub sent_at : ℕ
  pub sample_rate : ℕ
  pub frame_ms : ℕ
  pub pcm16 : String

pub data CoreAppMessage : Type 0 where
  session_verified : ℕ → CoreAppMessage
  text_message : TextMessage → CoreAppMessage
  file_offer : FileOffer → CoreAppMessage
  file_accept : String → CoreAppMessage
  file_reject : String → String → CoreAppMessage
  file_chunk : FileChunk → CoreAppMessage
  file_ack : String → ℕ → CoreAppMessage
  file_nack : String → ℕ → String → CoreAppMessage
  file_pause : String → String → CoreAppMessage
  file_resume : String → CoreAppMessage
  file_cancel : String → String → CoreAppMessage
  file_complete : String → Option String → CoreAppMessage
  voice_start : VoiceStart → CoreAppMessage
  voice_frame : VoiceFrame → CoreAppMessage
  voice_stop : String → CoreAppMessage

-- A `reliable.msg`; the id that `Reliable` counts is a text here.
pub record ReliableMsg : Type 0 where
  pub id : String
  pub channel : ReliableChannelName
  pub body : CoreAppMessage
  pub created_at : ℕ
  pub attempt : ℕ

pub data AppMessage : Type 0 where
  core : CoreAppMessage → AppMessage
  reliable_msg : ReliableMsg → AppMessage
  reliable_ack : String → AppMessage
  reliable_nack : String → String → AppMessage

unfoldable pub is_reliable_body : CoreAppMessage → Bool
is_reliable_body (file_chunk _) = false
is_reliable_body (file_ack _ _) = false
is_reliable_body (file_nack _ _ _) = false
is_reliable_body (voice_frame _) = false
is_reliable_body _ = true

abbrev pub number_of : ℕ → Json
number_of n = number (whole n)

abbrev pub optional_field : String → Option String → Fields → Fields
optional_field key none rest = rest
optional_field key (some s) rest = field key (string s) rest

abbrev pub mode_name : VoicePrivacyMode → String
mode_name efficient = "efficient"
mode_name maximum_privacy = "maximum_privacy"

abbrev pub mode_field : Option VoicePrivacyMode → Fields
mode_field none = no_fields
mode_field (some mode) = field "mode" (string (mode_name mode)) no_fields

-- The object that `JSON.stringify` writes; a field that is `undefined` is left out.
unfoldable pub core_fields : CoreAppMessage → Fields
core_fields (session_verified at) =
    field "kind" (string "session.verified") (field "at" (number_of at) no_fields)
core_fields (text_message m) = field "kind" (string "text.message") (
    field "messageId" (string m.message_id)
      (field "body" (string m.body) (field "createdAt" (number_of m.created_at) no_fields)))
core_fields (file_offer m) = field "kind" (string "file.offer") (
    field "fileId" (string m.file_id) (
      field "name" (string m.name) (
        field "mime" (string m.mime) (
          field "size" (number_of m.size) (
            field "chunkSize" (number_of m.chunk_size) (
              field "totalChunks" (number_of m.total_chunks)
                (optional_field "sha256" m.sha256 no_fields)))))))
core_fields (file_accept file_id) =
    field "kind" (string "file.accept") (field "fileId" (string file_id) no_fields)
core_fields (file_reject file_id reason) =
    field "kind" (string "file.reject")
      (field "fileId" (string file_id) (field "reason" (string reason) no_fields))
core_fields (file_chunk m) = field "kind" (string "file.chunk") (
    field "fileId" (string m.file_id) (
      field "index" (number_of m.index) (
        field "totalChunks" (number_of m.total_chunks)
          (field "data" (string m.content) no_fields))))
core_fields (file_ack file_id index) =
    field "kind" (string "file.ack")
      (field "fileId" (string file_id) (field "index" (number_of index) no_fields))
core_fields (file_nack file_id index reason) = field "kind" (string "file.nack") (
    field "fileId" (string file_id)
      (field "index" (number_of index) (field "reason" (string reason) no_fields)))
core_fields (file_pause file_id reason) =
    field "kind" (string "file.pause")
      (field "fileId" (string file_id) (field "reason" (string reason) no_fields))
core_fields (file_resume file_id) =
    field "kind" (string "file.resume") (field "fileId" (string file_id) no_fields)
core_fields (file_cancel file_id reason) =
    field "kind" (string "file.cancel")
      (field "fileId" (string file_id) (field "reason" (string reason) no_fields))
core_fields (file_complete file_id sha256) =
    field "kind" (string "file.complete")
      (field "fileId" (string file_id) (optional_field "sha256" sha256 no_fields))
core_fields (voice_start m) = field "kind" (string "voice.start") (
    field "streamId" (string m.stream_id) (
      field "sampleRate" (number_of m.sample_rate)
        (field "frameMs" (number_of m.frame_ms) (mode_field m.mode))))
core_fields (voice_frame m) = field "kind" (string "voice.frame") (
    field "streamId" (string m.stream_id) (
      field "seq" (number_of m.seq) (
        field "sentAt" (number_of m.sent_at) (
          field "sampleRate" (number_of m.sample_rate)
            (field "frameMs" (number_of m.frame_ms) (field "pcm16" (string m.pcm16) no_fields))))))
core_fields (voice_stop stream_id) =
    field "kind" (string "voice.stop") (field "streamId" (string stream_id) no_fields)

abbrev pub channel_name : ReliableChannelName → String
channel_name Reliable.control = "control"
channel_name Reliable.text = "text"

unfoldable pub app_fields : AppMessage → Fields
unfolding core_fields
app_fields (core m) = core_fields m
app_fields (reliable_msg m) = field "kind" (string "reliable.msg") (
    field "id" (string m.id) (
      field "channel" (string (channel_name m.channel)) (
        field "body" (object (core_fields m.body)) (
          field "createdAt" (number_of m.created_at)
            (field "attempt" (number_of m.attempt) no_fields)))))
app_fields (reliable_ack id) =
    field "kind" (string "reliable.ack") (field "id" (string id) no_fields)
app_fields (reliable_nack id reason) =
    field "kind" (string "reliable.nack")
      (field "id" (string id) (field "reason" (string reason) no_fields))
