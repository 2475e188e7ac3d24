-- ===== src/Audio/VoiceQueue/Tests.antt =====
-- A queue at concrete inputs.
use onlytwo.Base.{◌-◌, ℕ, ◌≡◌, [], ◌∷◌, ◌++◌, length, drop}
use onlytwo.Audio.VoiceQueue.{VoiceFreshnessQueue, push, push_newest}

abbrev two_frames : VoiceFreshnessQueue ℕ
two_frames = record {
  items = record { value = 1; queued_at = 10 } ∷ record { value = 2; queued_at = 20 } ∷ [];
  max_frames = 2;
  max_age_ms = 100;
}

push_newest_example :
    let (after, dropped) = push two_frames 3 30 in
    let whole = two_frames.items ++ record { value = 3; queued_at = 30 } ∷ [] in
    (after.items ≡ drop dropped whole) × (dropped ≡ length whole - 2)
push_newest_example = push_newest two_frames 3 30
