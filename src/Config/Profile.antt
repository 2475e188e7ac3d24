-- ===== src/Config/Profile.antt =====
-- `TransportProfile` of client/src/config/profiles.ts. Its numbers are whole; the decibels are
-- negative, and stand as `ℤ`.
use Prim.Native.String.{String}
use onlytwo.Base.{ℕ, Bool, List}
use onlytwo.Config.Lanes.{LaneBudget, PerLane}

-- `negsuc n` is -(n + 1).
pub data ℤ : Type 0 where
  pos : ℕ → ℤ
  negsuc : ℕ → ℤ

pub data TransportProfileId : Type 0 where
  balanced low_data voice_first maximum_privacy : TransportProfileId

pub data VoicePrivacyMode : Type 0 where
  efficient maximum_privacy : VoicePrivacyMode

pub data VoiceCodec : Type 0 where
  pcm16 : VoiceCodec

pub record OutboxPolicy : Type 0 where
  pub max_packets : ℕ
  pub max_bytes : ℕ
  pub max_buffered_amount_bytes : ℕ
  pub resume_buffered_amount_bytes : ℕ
  pub drain_yield_ms : ℕ

pub record ReconnectPolicy : Type 0 where
  pub max_attempts : ℕ
  pub base_delay_ms : ℕ
  pub max_delay_ms : ℕ
  pub jitter_ms : ℕ

pub record FilePolicy : Type 0 where
  pub small_bytes : ℕ
  pub medium_bytes : ℕ
  pub max_file_bytes : ℕ
  pub max_memory_receive_bytes : ℕ
  pub chunk_bytes : ℕ
  pub window_chunks : ℕ
  pub ack_timeout_ms : ℕ
  pub max_retries : ℕ

pub record VoicePolicy : Type 0 where
  pub enabled : Bool
  pub mode : VoicePrivacyMode
  pub codec : VoiceCodec
  pub frame_ms : ℕ
  pub jitter_target_ms : ℕ
  pub jitter_max_frames : ℕ
  pub vad_enabled : Bool
  pub vad_start_db : ℤ
  pub vad_stop_db : ℤ
  pub vad_pre_roll_ms : ℕ
  pub vad_hangover_ms : ℕ
  pub vad_min_speech_ms : ℕ
  pub max_queued_latency_ms : ℕ

pub record TransportProfile : Type 0 where
  pub id : TransportProfileId
  pub label : String
  pub description : String
  pub protocol_version : ℕ
  pub max_frame_bytes : ℕ
  pub padding_buckets : List ℕ
  pub max_skipped_message_keys : ℕ
  pub outbox : OutboxPolicy
  pub lanes : PerLane LaneBudget
  pub reconnect : ReconnectPolicy
  pub files : FilePolicy
  pub voice : VoicePolicy
