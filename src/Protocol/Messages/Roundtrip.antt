-- ===== src/Protocol/Messages/Roundtrip.antt =====
-- What was encoded is decoded.
use Prim.Native.String.{String}
use onlytwo.Base.{◌∙◌, ℕ, ◌≤◌, ◌≡◌, refl, Option, none, some, arith, ◌∙◌}
use onlytwo.Config.Profile.{VoicePrivacyMode, efficient, maximum_privacy}
use onlytwo.Protocol.Json.{
  Json, Fields, get, string, number, whole, utf16_length, is_hex, require_string, optional_string,
  require_integer, ◌>>=◌, as_string, field, no_fields,
}
use onlytwo.Protocol.Messages.{
  CoreAppMessage, session_verified, text_message, file_offer, file_accept, file_reject, file_chunk,
  file_ack, file_nack, file_pause, file_resume, file_cancel, file_complete, voice_start,
  voice_frame, voice_stop, AppMessage, core, reliable_msg, reliable_ack, reliable_nack, core_fields,
  app_fields, optional_field, mode_field, channel_name,
}
use onlytwo.Protocol.Reliable.{ReliableChannelName}
use onlytwo.Protocol.Reliable
use onlytwo.Protocol.Messages.Decode.{
  decode_voice_start, decode_voice_frame, decode_voice_stop, decode_chunk_message, decode_ack,
  decode_nack, decode_complete, bounded_string, check_bounds, bounded_optional_string,
  optional_sha256, optional_timestamp, max_timestamp, decode_core, decode_app, decode_core_kind,
  decode_text, decode_offer, decode_chunk_message, parse_mode, decode_ack, decode_nack,
  decode_complete, decode_voice_start, max_text_message_chars, decode_app_kind, parse_channel,
  decode_reliable, decode_reliable_ack, decode_reliable_nack,
}
use onlytwo.Protocol.Messages.Fit.{IsBounded, IsInteger, FitsSha256, FitsCore, FitsApp}

bounded_back :
    (obj : Fields) (key s : String) (max : ℕ)
    → get key obj ≡ some (string s)
    → IsBounded max s
    → bounded_string obj key max ≡ some s
unfolding bounded_string require_string check_bounds
bounded_back obj key s max e h = rw e (ground (arith, h.some_text, h.short))

integer_back :
    (obj : Fields) (key : String) (min n : ℕ)
    → get key obj ≡ some (number (whole n))
    → IsInteger min n
    → require_integer obj key min ≡ some n
unfolding require_integer
integer_back obj key min n e h = rw e (ground (arith, h.at_least, h.safe))

timestamp_back :
    (now : ℕ) (obj : Fields) (key : String) (n : ℕ)
    → get key obj ≡ some (number (whole n))
    → n ≤ max_timestamp
    → optional_timestamp now obj key ≡ n
unfolding optional_timestamp
timestamp_back now obj key n e h = rw e (ground (arith, h))

sha256_back :
    (obj : Fields) (sum : Option String)
    → as_string (get "sha256" obj) ≡ sum
    → FitsSha256 sum
    → optional_sha256 obj ≡ some sum
unfolding optional_sha256 optional_string FitsSha256 is_hex utf16_length
sha256_back obj none e h = rw e refl
sha256_back obj (some s) e h = rw e (ground (arith, h))

optional_back :
    (obj : Fields) (key fallback s : String) (max : ℕ)
    → get key obj ≡ some (string s)
    → utf16_length s ≤ max
    → bounded_optional_string obj key fallback max ≡ some s
unfolding bounded_optional_string optional_string
optional_back obj key fallback s max e h = rw e (ground (arith, h))

-- The two optional fields, read back.
sum_field :
    (sum : Option String) → as_string (get "sha256" (optional_field "sha256" sum no_fields)) ≡ sum
unfolding get
sum_field none = refl
sum_field (some s) = refl

mode_back :
    (mode : Option VoicePrivacyMode) (kind stream_id sample_rate frame_ms : Json)
    → parse_mode (
        optional_string
          (field "kind" kind (
            field "streamId" stream_id
              (field "sampleRate" sample_rate (field "frameMs" frame_ms (mode_field mode)))))
          "mode"
          "")
      ≡ some mode
unfolding optional_string get
mode_back none kind stream_id sample_rate frame_ms = refl
mode_back (some efficient) kind stream_id sample_rate frame_ms = refl
mode_back (some maximum_privacy) kind stream_id sample_rate frame_ms = refl

-- Every core message that fits its bounds, encoded as an object, is decoded to itself.
core_back : (now : ℕ) (m : CoreAppMessage) → FitsCore m → decode_core now (core_fields m) ≡ some m
unfolding FitsCore decode_core decode_core_kind core_fields get decode_text decode_offer
    decode_chunk_message decode_ack decode_nack decode_complete decode_voice_start
    decode_voice_frame decode_voice_stop
core_back now (session_verified at) h = rw (timestamp_back now _ "at" at refl h) refl
core_back now (text_message m) (i, b, t) =
    rw
      (
        bounded_back _ "messageId" m.message_id 160 refl i,
        bounded_back _ "body" m.body max_text_message_chars refl b,
        timestamp_back now _ "createdAt" m.created_at refl t,
      )
      refl
core_back now (file_offer m) (i, n, t, z, c, k, h) =
    rw
      (
        sha256_back _ m.sha256 (sum_field m.sha256) h,
        bounded_back _ "fileId" m.file_id 160 refl i,
        bounded_back _ "name" m.name 180 refl n,
        optional_back _ "mime" "application/octet-stream" m.mime 160 refl t,
        integer_back _ "size" 1 m.size refl z,
        integer_back _ "chunkSize" 1 m.chunk_size refl c,
        integer_back _ "totalChunks" 1 m.total_chunks refl k,
      )
      refl
core_back now (file_accept file_id) i = rw (bounded_back _ "fileId" file_id 160 refl i) refl
core_back now (file_reject file_id reason) (i, r) =
    rw (bounded_back _ "fileId" file_id 160 refl i, bounded_back _ "reason" reason 240 refl r) refl
core_back now (file_chunk m) (i, n, k, d) =
    rw
      (
        bounded_back _ "fileId" m.file_id 160 refl i,
        integer_back _ "index" 0 m.index refl n,
        integer_back _ "totalChunks" 1 m.total_chunks refl k,
        bounded_back _ "data" m.content 400000 refl d,
      )
      refl
core_back now (file_ack file_id index) (i, n) =
    rw (bounded_back _ "fileId" file_id 160 refl i, integer_back _ "index" 0 index refl n) refl
core_back now (file_nack file_id index reason) (i, n, r) =
    rw
      (
        bounded_back _ "fileId" file_id 160 refl i,
        integer_back _ "index" 0 index refl n,
        bounded_back _ "reason" reason 240 refl r,
      )
      refl
core_back now (file_pause file_id reason) (i, r) =
    rw (bounded_back _ "fileId" file_id 160 refl i, bounded_back _ "reason" reason 240 refl r) refl
core_back now (file_resume file_id) i = rw (bounded_back _ "fileId" file_id 160 refl i) refl
core_back now (file_cancel file_id reason) (i, r) =
    rw (bounded_back _ "fileId" file_id 160 refl i, bounded_back _ "reason" reason 240 refl r) refl
core_back now (file_complete file_id sum) (i, h) =
    rw (sha256_back _ sum (sum_field sum) h, bounded_back _ "fileId" file_id 160 refl i) refl
core_back now (voice_start m) (i, r, f) =
    rw
      (
        mode_back m.mode _ _ _ _,
        bounded_back _ "streamId" m.stream_id 80 refl i,
        integer_back _ "sampleRate" 1 m.sample_rate refl r,
        integer_back _ "frameMs" 1 m.frame_ms refl f,
      )
      refl
core_back now (voice_frame m) (i, q, t, r, f, d) =
    rw
      (
        bounded_back _ "streamId" m.stream_id 80 refl i,
        integer_back _ "seq" 0 m.seq refl q,
        integer_back _ "sentAt" 0 m.sent_at refl t,
        integer_back _ "sampleRate" 1 m.sample_rate refl r,
        integer_back _ "frameMs" 1 m.frame_ms refl f,
        bounded_back _ "pcm16" m.pcm16 400000 refl d,
      )
      refl
core_back now (voice_stop stream_id) i = rw (bounded_back _ "streamId" stream_id 80 refl i) refl

-- No core message is taken for one of the reliable channel's.
app_core :
    (now : ℕ) (m : CoreAppMessage)
    → decode_app now (core_fields m) ≡ (decode_core now (core_fields m) >>= λ n. some (core n))
unfolding decode_app decode_app_kind decode_core core_fields get
app_core now (session_verified _) = refl
app_core now (text_message _) = refl
app_core now (file_offer _) = refl
app_core now (file_accept _) = refl
app_core now (file_reject _ _) = refl
app_core now (file_chunk _) = refl
app_core now (file_ack _ _) = refl
app_core now (file_nack _ _ _) = refl
app_core now (file_pause _ _) = refl
app_core now (file_resume _) = refl
app_core now (file_cancel _ _) = refl
app_core now (file_complete _ _) = refl
app_core now (voice_start _) = refl
app_core now (voice_frame _) = refl
app_core now (voice_stop _) = refl

channel_back : (c : ReliableChannelName) → parse_channel (channel_name c) ≡ some c
channel_back Reliable.control = refl
channel_back Reliable.text = refl

-- A message within the bounds of its fields, encoded as an object, is decoded to itself, whatever
-- the receiver's clock says.
pub decode_app-app_fields :
    (now : ℕ) (m : AppMessage) → FitsApp m → decode_app now (app_fields m) ≡ some m
unfolding FitsApp app_fields decode_app decode_app_kind decode_reliable decode_reliable_ack
    decode_reliable_nack get require_string
decode_app-app_fields now (core m) h = app_core now m ∙ rw (core_back now m h) refl
decode_app-app_fields now (reliable_msg m) (i, r, h, t, k) =
    rw
      (
        channel_back m.channel,
        core_back now m.body h,
        r,
        bounded_back _ "id" m.id 160 refl i,
        integer_back _ "attempt" 1 m.attempt refl k,
        timestamp_back now _ "createdAt" m.created_at refl t,
      )
      refl
decode_app-app_fields now (reliable_ack id) i = rw (bounded_back _ "id" id 160 refl i) refl
decode_app-app_fields now (reliable_nack id reason) (i, r) =
    rw (bounded_back _ "id" id 160 refl i, bounded_back _ "reason" reason 240 refl r) refl
