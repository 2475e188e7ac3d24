-- ===== src/Config/Table.antt =====
-- The profile table of client/src/config/profiles.ts: `PROFILES`, `getProfile`,
-- `isTransportProfileId` and `supportedProfileIds`.
use Prim.Native.String.{String}
use text.Mathlib.Text.{◌==◌ as str_eq}
use onlytwo.Base.{ℕ, ◌*◌, Bool, true, false, ◌||◌, Option, none, some, List, [], ◌∷◌}
use onlytwo.Config.Lanes.{DropPolicy, LaneBudget, PerLane, fail, drop_oldest}
use onlytwo.Config.Profile.{
  TransportProfile, TransportProfileId, VoicePrivacyMode, ReconnectPolicy, balanced, low_data,
  voice_first, efficient, pcm16, negsuc,
}

abbrev pub kb : ℕ
kb = 1024

abbrev pub mb : ℕ
mb = 1024 * kb

-- A `Partial<LaneBudget>`: a field that is given wins over the base.
record LaneOverride : Type 0 where
  priority : Option ℕ
  max_packets : Option ℕ
  max_bytes : Option ℕ
  drop_policy : Option DropPolicy

abbrev or_base {ℓ} : {A : Type ℓ} → Option A → A → A
or_base none a = a
or_base (some b) a = b

-- `{ ...base, ...override }`
abbrev spread : LaneBudget → LaneOverride → LaneBudget
spread base o = record {
  priority = or_base o.priority base.priority;
  max_packets = or_base o.max_packets base.max_packets;
  max_bytes = or_base o.max_bytes base.max_bytes;
  drop_policy = or_base o.drop_policy base.drop_policy;
}

abbrev no_override : LaneOverride
no_override = record { priority = none; max_packets = none; max_bytes = none; drop_policy = none }

abbrev resize : ℕ → ℕ → LaneOverride
resize packets bytes = record no_override { max_packets = some packets; max_bytes = some bytes }

abbrev replace : ℕ → ℕ → ℕ → DropPolicy → LaneOverride
replace p packets bytes policy = record {
  priority = some p;
  max_packets = some packets;
  max_bytes = some bytes;
  drop_policy = some policy;
}

abbrev base_lanes : PerLane LaneBudget
base_lanes = record {
  control = record { priority = 100; max_packets = 128; max_bytes = 2 * mb; drop_policy = fail };
  voice = record {
    priority = 80;
    max_packets = 12;
    max_bytes = 768 * kb;
    drop_policy = drop_oldest;
  };
  text = record { priority = 60; max_packets = 256; max_bytes = 4 * mb; drop_policy = fail };
  file = record { priority = 10; max_packets = 16; max_bytes = 2 * mb; drop_policy = fail };
}

-- An override for each lane; a lane left out of `overrides` has none.
abbrev clone_lane_budgets : PerLane LaneOverride → PerLane LaneBudget
clone_lane_budgets overrides = record {
  control = spread base_lanes.control overrides.control;
  voice = spread base_lanes.voice overrides.voice;
  text = spread base_lanes.text overrides.text;
  file = spread base_lanes.file overrides.file;
}

-- `{ voice: …, file: … }`
abbrev overriding : LaneOverride → LaneOverride → PerLane LaneOverride
overriding voice file = record {
  control = no_override;
  voice = voice;
  text = no_override;
  file = file;
}

abbrev common_reconnect : ReconnectPolicy
common_reconnect = record {
  max_attempts = 18;
  base_delay_ms = 450;
  max_delay_ms = 5000;
  jitter_ms = 350;
}

abbrev pub balanced_profile : TransportProfile
balanced_profile = record {
  id = balanced;
  label = "Balanced";
  description =
      "Default profile with conservative beta file limits, VAD voice, and bounded queues.";
  protocol_version = 2;
  max_frame_bytes = 256 * kb;
  padding_buckets = (4 * kb) ∷ (16 * kb) ∷ (64 * kb) ∷ (128 * kb) ∷ [];
  max_skipped_message_keys = 512;
  outbox = record {
    max_packets = 384;
    max_bytes = 16 * mb;
    max_buffered_amount_bytes = 2 * mb;
    resume_buffered_amount_bytes = 768 * kb;
    drain_yield_ms = 0;
  };
  lanes = clone_lane_budgets (overriding no_override no_override);
  reconnect = common_reconnect;
  files = record {
    small_bytes = 10 * mb;
    medium_bytes = 25 * mb;
    max_file_bytes = 50 * mb;
    max_memory_receive_bytes = 50 * mb;
    chunk_bytes = 32 * kb;
    window_chunks = 4;
    ack_timeout_ms = 12000;
    max_retries = 8;
  };
  voice = record {
    enabled = true;
    mode = efficient;
    codec = pcm16;
    frame_ms = 40;
    jitter_target_ms = 120;
    jitter_max_frames = 12;
    vad_enabled = true;
    vad_start_db = negsuc 44;
    vad_stop_db = negsuc 51;
    vad_pre_roll_ms = 120;
    vad_hangover_ms = 250;
    vad_min_speech_ms = 60;
    max_queued_latency_ms = 400;
  };
}

abbrev pub low_data_profile : TransportProfile
low_data_profile = record {
  id = low_data;
  label = "Low Data";
  description = "Lower bandwidth profile with smaller files and smaller queues.";
  protocol_version = 2;
  max_frame_bytes = 128 * kb;
  padding_buckets = (4 * kb) ∷ (16 * kb) ∷ (64 * kb) ∷ [];
  max_skipped_message_keys = 512;
  outbox = record {
    max_packets = 192;
    max_bytes = 8 * mb;
    max_buffered_amount_bytes = 1 * mb;
    resume_buffered_amount_bytes = 384 * kb;
    drain_yield_ms = 0;
  };
  lanes = clone_lane_budgets (overriding (resize 8 (384 * kb)) (resize 8 (1 * mb)));
  reconnect = record {
    max_attempts = 20;
    base_delay_ms = 600;
    max_delay_ms = 6000;
    jitter_ms = 450;
  };
  files = record {
    small_bytes = 5 * mb;
    medium_bytes = 10 * mb;
    max_file_bytes = 25 * mb;
    max_memory_receive_bytes = 25 * mb;
    chunk_bytes = 16 * kb;
    window_chunks = 2;
    ack_timeout_ms = 16000;
    max_retries = 10;
  };
  voice = record {
    enabled = true;
    mode = efficient;
    codec = pcm16;
    frame_ms = 60;
    jitter_target_ms = 180;
    jitter_max_frames = 10;
    vad_enabled = true;
    vad_start_db = negsuc 42;
    vad_stop_db = negsuc 49;
    vad_pre_roll_ms = 120;
    vad_hangover_ms = 300;
    vad_min_speech_ms = 80;
    max_queued_latency_ms = 500;
  };
}

abbrev pub voice_first_profile : TransportProfile
voice_first_profile = record {
  id = voice_first;
  label = "Voice First";
  description =
      "Prioritizes low-latency voice; file transfer is intentionally conservative during calls.";
  protocol_version = 2;
  max_frame_bytes = 256 * kb;
  padding_buckets = (4 * kb) ∷ (16 * kb) ∷ (64 * kb) ∷ [];
  max_skipped_message_keys = 512;
  outbox = record {
    max_packets = 256;
    max_bytes = 10 * mb;
    max_buffered_amount_bytes = 1536 * kb;
    resume_buffered_amount_bytes = 512 * kb;
    drain_yield_ms = 0;
  };
  lanes =
      clone_lane_budgets
        (overriding (replace 95 10 (640 * kb) drop_oldest) (replace 5 8 (1 * mb) fail));
  reconnect = record {
    max_attempts = 18;
    base_delay_ms = 350;
    max_delay_ms = 4000;
    jitter_ms = 250;
  };
  files = record {
    small_bytes = 5 * mb;
    medium_bytes = 25 * mb;
    max_file_bytes = 50 * mb;
    max_memory_receive_bytes = 50 * mb;
    chunk_bytes = 24 * kb;
    window_chunks = 2;
    ack_timeout_ms = 12000;
    max_retries = 8;
  };
  voice = record {
    enabled = true;
    mode = efficient;
    codec = pcm16;
    frame_ms = 30;
    jitter_target_ms = 100;
    jitter_max_frames = 14;
    vad_enabled = true;
    vad_start_db = negsuc 46;
    vad_stop_db = negsuc 53;
    vad_pre_roll_ms = 120;
    vad_hangover_ms = 220;
    vad_min_speech_ms = 50;
    max_queued_latency_ms = 250;
  };
}

abbrev pub maximum_privacy_profile : TransportProfile
maximum_privacy_profile = record {
  id = TransportProfileId.maximum_privacy;
  label = "Maximum Privacy";
  description = "Higher bandwidth profile. Uses larger padding and constant-cadence voice.";
  protocol_version = 2;
  max_frame_bytes = 256 * kb;
  padding_buckets = (64 * kb) ∷ (128 * kb) ∷ [];
  max_skipped_message_keys = 512;
  outbox = record {
    max_packets = 192;
    max_bytes = 24 * mb;
    max_buffered_amount_bytes = 2 * mb;
    resume_buffered_amount_bytes = 768 * kb;
    drain_yield_ms = 0;
  };
  lanes = clone_lane_budgets (overriding (replace 85 16 (1 * mb) drop_oldest) (resize 8 (1 * mb)));
  reconnect = record {
    max_attempts = 18;
    base_delay_ms = 500;
    max_delay_ms = 5000;
    jitter_ms = 400;
  };
  files = record {
    small_bytes = 5 * mb;
    medium_bytes = 10 * mb;
    max_file_bytes = 25 * mb;
    max_memory_receive_bytes = 25 * mb;
    chunk_bytes = 24 * kb;
    window_chunks = 2;
    ack_timeout_ms = 16000;
    max_retries = 10;
  };
  voice = record {
    enabled = true;
    mode = VoicePrivacyMode.maximum_privacy;
    codec = pcm16;
    frame_ms = 60;
    jitter_target_ms = 180;
    jitter_max_frames = 10;
    vad_enabled = false;
    vad_start_db = negsuc 44;
    vad_stop_db = negsuc 51;
    vad_pre_roll_ms = 0;
    vad_hangover_ms = 0;
    vad_min_speech_ms = 0;
    max_queued_latency_ms = 500;
  };
}

-- `PROFILES[id]`; the fallback `?? PROFILES.balanced` is for ids that the type rules out.
abbrev pub get_profile : TransportProfileId → TransportProfile
get_profile balanced = balanced_profile
get_profile low_data = low_data_profile
get_profile voice_first = voice_first_profile
get_profile TransportProfileId.maximum_privacy = maximum_privacy_profile

abbrev pub supported_profile_ids : List TransportProfileId
supported_profile_ids = balanced ∷ low_data ∷ voice_first ∷ TransportProfileId.maximum_privacy ∷ []

-- The property name of a profile in `PROFILES`.
abbrev pub profile_key : TransportProfileId → String
profile_key balanced = "balanced"
profile_key low_data = "low_data"
profile_key voice_first = "voice_first"
profile_key TransportProfileId.maximum_privacy = "maximum_privacy"

has_key : String → List TransportProfileId → Bool
has_key s [] = false
has_key s (i ∷ is) = str_eq s (profile_key i) || has_key s is

-- `hasOwnProperty(PROFILES, value)`
unfoldable pub is_transport_profile_id : String → Bool
unfolding has_key
is_transport_profile_id s = has_key s supported_profile_ids
