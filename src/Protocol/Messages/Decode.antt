-- ===== src/Protocol/Messages/Decode.antt =====
-- `decodeAppMessage` and the readers it uses. `none` is a thrown error; `now` is `Date.now()`.
use Prim.Native.String.{String}
use text.Mathlib.Text
use onlytwo.Base.{ℕ, not, ◌||◌, Option, none, some, ltb, leb, ◌==◌, if◌then◌else◌}
use onlytwo.Config.Profile.{VoicePrivacyMode, efficient, maximum_privacy}
use onlytwo.Protocol.Json.{
  Json, Fields, get, object, utf16_length, is_hex, max_safe_integer, require_string,
  optional_string, require_integer, ◌>>=◌, as_string, as_whole, keep,
}
use onlytwo.Protocol.Reliable.{ReliableChannelName}
use onlytwo.Protocol.Reliable
use onlytwo.Protocol.Messages.{
  CoreAppMessage, session_verified, text_message, file_offer, file_accept, file_reject, file_chunk,
  file_ack, file_nack, file_pause, file_resume, file_cancel, file_complete, voice_start,
  voice_frame, voice_stop, AppMessage, core, reliable_msg, reliable_ack, reliable_nack,
  is_reliable_body,
}

abbrev pub max_text_message_chars : ℕ
max_text_message_chars = 8000

-- `value.length === 0 || value.length > max` throws.
unfoldable pub check_bounds : String → ℕ → Option String
check_bounds value max = keep (not (utf16_length value == 0 || ltb max (utf16_length value))) value

unfoldable pub bounded_string : Fields → String → ℕ → Option String
bounded_string obj key max = do value ← require_string obj key; check_bounds value max

unfoldable pub bounded_optional_string : Fields → String → String → ℕ → Option String
bounded_optional_string obj key fallback max =
    let value = optional_string obj key fallback in keep (leb (utf16_length value) max) value

-- The empty text stands for no field.
abbrev pub check_sha256 : String → Option (Option String)
check_sha256 value =
    if utf16_length value == 0 then some none else keep (is_hex 64 value) (some value)

unfoldable pub optional_sha256 : Fields → Option (Option String)
optional_sha256 obj = check_sha256 (optional_string obj "sha256" "")

abbrev pub max_timestamp : ℕ
max_timestamp = 8640000000000000

abbrev pub clamp_timestamp : ℕ → Option ℕ → ℕ
clamp_timestamp now none = now
clamp_timestamp now (some n) = if ltb max_safe_integer n || ltb max_timestamp n then now else n

unfoldable pub optional_timestamp : ℕ → Fields → String → ℕ
optional_timestamp now obj key = clamp_timestamp now (as_whole (get key obj))

abbrev pub parse_mode : String → Option (Option VoicePrivacyMode)
parse_mode raw =
    if Text.◌==◌ raw ""
    then some none
    else if Text.◌==◌ raw "efficient"
    then some (some efficient)
    else if Text.◌==◌ raw "maximum_privacy"
    then some (some maximum_privacy)
    else none

unfoldable pub decode_offer : Fields → Option CoreAppMessage
decode_offer obj = do
  sha256 ← optional_sha256 obj
  file_id ← bounded_string obj "fileId" 160
  name ← bounded_string obj "name" 180
  mime ← bounded_optional_string obj "mime" "application/octet-stream" 160
  size ← require_integer obj "size" 1
  chunk_size ← require_integer obj "chunkSize" 1
  total_chunks ← require_integer obj "totalChunks" 1
  some (
      file_offer (record {
        file_id = file_id;
        name = name;
        mime = mime;
        size = size;
        chunk_size = chunk_size;
        total_chunks = total_chunks;
        sha256 = sha256;
      }))

unfoldable pub decode_chunk_message : Fields → Option CoreAppMessage
decode_chunk_message obj = do
  file_id ← bounded_string obj "fileId" 160
  index ← require_integer obj "index" 0
  total_chunks ← require_integer obj "totalChunks" 1
  content ← bounded_string obj "data" 400000
  some (
      file_chunk (record {
        file_id = file_id;
        index = index;
        total_chunks = total_chunks;
        content = content;
      }))

-- A message with a file id and a reason.
abbrev pub with_reason : Fields → (String → String → CoreAppMessage) → Option CoreAppMessage
with_reason obj make = do
  file_id ← bounded_string obj "fileId" 160
  reason ← bounded_string obj "reason" 240
  some (make file_id reason)

abbrev pub with_id : Fields → (String → CoreAppMessage) → Option CoreAppMessage
with_id obj make = do file_id ← bounded_string obj "fileId" 160; some (make file_id)

unfoldable pub decode_ack : Fields → Option CoreAppMessage
decode_ack obj = do
  file_id ← bounded_string obj "fileId" 160
  index ← require_integer obj "index" 0
  some (file_ack file_id index)

unfoldable pub decode_nack : Fields → Option CoreAppMessage
decode_nack obj = do
  file_id ← bounded_string obj "fileId" 160
  index ← require_integer obj "index" 0
  reason ← bounded_string obj "reason" 240
  some (file_nack file_id index reason)

unfoldable pub decode_complete : Fields → Option CoreAppMessage
decode_complete obj = do
  sha256 ← optional_sha256 obj
  file_id ← bounded_string obj "fileId" 160
  some (file_complete file_id sha256)

unfoldable pub decode_text : ℕ → Fields → Option CoreAppMessage
decode_text now obj = do
  message_id ← bounded_string obj "messageId" 160
  body ← bounded_string obj "body" max_text_message_chars
  some (
      text_message (record {
        message_id = message_id;
        body = body;
        created_at = optional_timestamp now obj "createdAt";
      }))

unfoldable pub decode_voice_start : Fields → Option CoreAppMessage
decode_voice_start obj = do
  mode ← parse_mode (optional_string obj "mode" "")
  stream_id ← bounded_string obj "streamId" 80
  sample_rate ← require_integer obj "sampleRate" 1
  frame_ms ← require_integer obj "frameMs" 1
  some (
      voice_start (record {
        stream_id = stream_id;
        sample_rate = sample_rate;
        frame_ms = frame_ms;
        mode = mode;
      }))

unfoldable pub decode_voice_frame : Fields → Option CoreAppMessage
decode_voice_frame obj = do
  stream_id ← bounded_string obj "streamId" 80
  seq ← require_integer obj "seq" 0
  sent_at ← require_integer obj "sentAt" 0
  sample_rate ← require_integer obj "sampleRate" 1
  frame_ms ← require_integer obj "frameMs" 1
  pcm16 ← bounded_string obj "pcm16" 400000
  some (
      voice_frame (record {
        stream_id = stream_id;
        seq = seq;
        sent_at = sent_at;
        sample_rate = sample_rate;
        frame_ms = frame_ms;
        pcm16 = pcm16;
      }))

unfoldable pub decode_voice_stop : Fields → Option CoreAppMessage
decode_voice_stop obj = do stream_id ← bounded_string obj "streamId" 80; some (voice_stop stream_id)

-- The cases of `decodeCoreAppMessageObject`, on `obj.kind`.
unfoldable pub decode_core_kind : ℕ → Fields → String → Option CoreAppMessage
decode_core_kind now obj kind =
    if Text.◌==◌ kind "session.verified"
    then some (session_verified (optional_timestamp now obj "at"))
    else if Text.◌==◌ kind "text.message"
    then decode_text now obj
    else if Text.◌==◌ kind "file.offer"
    then decode_offer obj
    else if Text.◌==◌ kind "file.accept"
    then with_id obj file_accept
    else if Text.◌==◌ kind "file.reject"
    then with_reason obj file_reject
    else if Text.◌==◌ kind "file.chunk"
    then decode_chunk_message obj
    else if Text.◌==◌ kind "file.ack"
    then decode_ack obj
    else if Text.◌==◌ kind "file.nack"
    then decode_nack obj
    else if Text.◌==◌ kind "file.pause"
    then with_reason obj file_pause
    else if Text.◌==◌ kind "file.resume"
    then with_id obj file_resume
    else if Text.◌==◌ kind "file.cancel"
    then with_reason obj file_cancel
    else if Text.◌==◌ kind "file.complete"
    then decode_complete obj
    else if Text.◌==◌ kind "voice.start"
    then decode_voice_start obj
    else if Text.◌==◌ kind "voice.frame"
    then decode_voice_frame obj
    else if Text.◌==◌ kind "voice.stop"
    then decode_voice_stop obj
    else none

unfoldable pub decode_core : ℕ → Fields → Option CoreAppMessage
decode_core now obj = do kind ← as_string (get "kind" obj); decode_core_kind now obj kind

abbrev pub parse_channel : String → Option ReliableChannelName
parse_channel name =
    if Text.◌==◌ name "control"
    then some Reliable.control
    else if Text.◌==◌ name "text"
    then some Reliable.text
    else none

abbrev pub as_object : Option Json → Option Fields
as_object (some (object fields)) = some fields
as_object _ = none

unfoldable pub decode_reliable : ℕ → Fields → Option AppMessage
decode_reliable now obj = do
  name ← require_string obj "channel"
  channel ← parse_channel name
  fields ← as_object (get "body" obj)
  decoded ← decode_core now fields
  body ← keep (is_reliable_body decoded) decoded
  id ← bounded_string obj "id" 160
  attempt ← require_integer obj "attempt" 1
  some (
      reliable_msg (record {
        id = id;
        channel = channel;
        body = body;
        created_at = optional_timestamp now obj "createdAt";
        attempt = attempt;
      }))

unfoldable pub decode_reliable_ack : Fields → Option AppMessage
decode_reliable_ack obj = do id ← bounded_string obj "id" 160; some (reliable_ack id)

unfoldable pub decode_reliable_nack : Fields → Option AppMessage
decode_reliable_nack obj = do
  id ← bounded_string obj "id" 160
  reason ← bounded_string obj "reason" 240
  some (reliable_nack id reason)

unfoldable pub decode_app_kind : ℕ → Fields → String → Option AppMessage
decode_app_kind now obj kind =
    if Text.◌==◌ kind "reliable.msg"
    then decode_reliable now obj
    else if Text.◌==◌ kind "reliable.ack"
    then decode_reliable_ack obj
    else if Text.◌==◌ kind "reliable.nack"
    then decode_reliable_nack obj
    else (do m ← decode_core_kind now obj kind; some (core m))

-- `decodeAppMessageObject`
unfoldable pub decode_app : ℕ → Fields → Option AppMessage
decode_app now obj = do kind ← as_string (get "kind" obj); decode_app_kind now obj kind
