-- ===== src/Audio/VadGate/Tests.antt =====
-- A gate on levels that are numbers.
use onlytwo.Base.{ℕ, ◌≡◌, refl, Bool, true, false, [], ◌∷◌, leb}
use onlytwo.Audio.VadGate.{VadConfig, VadGate, process, talk, listen, passed, shift_to}
use onlytwo.Audio.VadGate.Hangover.{process_all, passed_all, hangover_sent}

abbrev level : ℕ → ℕ
level n = n

abbrev reaches : ℕ → ℕ → Bool
reaches a b = leb b a

abbrev config : VadConfig ℕ
config = record {
  enabled = true;
  start_db = 7;
  stop_db = 4;
  pre_roll_frames = 2;
  hangover_frames = 2;
  min_speech_frames = 2;
}

abbrev silent : VadGate ℕ ℕ
silent = record {
  config = config;
  speaking = false;
  above_start_frames = 0;
  hangover_remaining = 0;
  pre_roll = [];
}

-- Two loud frames open the gate.
abbrev opened : VadGate ℕ ℕ
opened = record silent { speaking = true; hangover_remaining = 2 }

opened_lem : (process_all level reaches silent (1 ∷ 8 ∷ 9 ∷ [])).1 ≡ opened
unfolding process_all process talk listen passed shift_to
opened_lem = refl

hangover_sent_example :
    let (decisions, after) = process_all level reaches opened (3 ∷ 2 ∷ []) in
    (decisions ≡ passed_all level reaches (3 ∷ 2 ∷ []))
    × ((process level reaches after 1).0.stopped ≡ true)
    × ((process level reaches after 1).1.speaking ≡ false)
hangover_sent_example =
    hangover_sent level reaches opened (3 ∷ 2 ∷ []) 1 refl refl (refl, (refl, tt)) refl refl
