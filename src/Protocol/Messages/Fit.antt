-- ===== src/Protocol/Messages/Fit.antt =====
-- What is asked of a message: lengths and integers within the bounds of its fields.
use Prim.Native.String.{String}
use onlytwo.Base.{ℕ, ◌≤◌, ◌≡◌, true, Option, none, some}
use onlytwo.Protocol.Json.{utf16_length, is_hex, max_safe_integer}
use onlytwo.Protocol.Messages.{
  CoreAppMessage, session_verified, text_message, file_offer, file_accept, file_reject, file_chunk,
  file_ack, file_nack, file_pause, file_resume, file_cancel, file_complete, voice_start,
  voice_frame, voice_stop, AppMessage, core, reliable_msg, reliable_ack, reliable_nack,
  is_reliable_body,
}
use onlytwo.Protocol.Messages.Decode.{max_timestamp, max_text_message_chars}

pub record IsBounded (max : ℕ) (s : String) : Type 0 where
  pub some_text : 1 ≤ utf16_length s
  pub short : utf16_length s ≤ max

pub record IsInteger (min n : ℕ) : Type 0 where
  pub at_least : min ≤ n
  pub safe : n ≤ max_safe_integer

unfoldable pub FitsSha256 : Option String → Type 0
FitsSha256 none = Unit
FitsSha256 (some s) = is_hex 64 s ≡ true

unfoldable pub FitsCore : CoreAppMessage → Type 0
FitsCore (session_verified at) = at ≤ max_timestamp
FitsCore (text_message m) =
    IsBounded 160 m.message_id
    × IsBounded max_text_message_chars m.body
    × (m.created_at ≤ max_timestamp)
FitsCore (file_offer m) =
    IsBounded 160 m.file_id
    × IsBounded 180 m.name
    × (utf16_length m.mime ≤ 160)
    × IsInteger 1 m.size
    × IsInteger 1 m.chunk_size
    × IsInteger 1 m.total_chunks
    × FitsSha256 m.sha256
FitsCore (file_accept file_id) = IsBounded 160 file_id
FitsCore (file_reject file_id reason) = IsBounded 160 file_id × IsBounded 240 reason
FitsCore (file_chunk m) =
    IsBounded 160 m.file_id
    × IsInteger 0 m.index
    × IsInteger 1 m.total_chunks
    × IsBounded 400000 m.content
FitsCore (file_ack file_id index) = IsBounded 160 file_id × IsInteger 0 index
FitsCore (file_nack file_id index reason) =
    IsBounded 160 file_id × IsInteger 0 index × IsBounded 240 reason
FitsCore (file_pause file_id reason) = IsBounded 160 file_id × IsBounded 240 reason
FitsCore (file_resume file_id) = IsBounded 160 file_id
FitsCore (file_cancel file_id reason) = IsBounded 160 file_id × IsBounded 240 reason
FitsCore (file_complete file_id sha256) = IsBounded 160 file_id × FitsSha256 sha256
FitsCore (voice_start m) =
    IsBounded 80 m.stream_id × IsInteger 1 m.sample_rate × IsInteger 1 m.frame_ms
FitsCore (voice_frame m) =
    IsBounded 80 m.stream_id
    × IsInteger 0 m.seq
    × IsInteger 0 m.sent_at
    × IsInteger 1 m.sample_rate
    × IsInteger 1 m.frame_ms
    × IsBounded 400000 m.pcm16
FitsCore (voice_stop stream_id) = IsBounded 80 stream_id

unfoldable pub FitsApp : AppMessage → Type 0
unfolding FitsCore
FitsApp (core m) = FitsCore m
FitsApp (reliable_msg m) =
    IsBounded 160 m.id
    × (is_reliable_body m.body ≡ true)
    × FitsCore m.body
    × (m.created_at ≤ max_timestamp)
    × IsInteger 1 m.attempt
FitsApp (reliable_ack id) = IsBounded 160 id
FitsApp (reliable_nack id reason) = IsBounded 160 id × IsBounded 240 reason

-- `P` holds of the value, if there is one.
