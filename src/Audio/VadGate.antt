-- ===== src/Audio/VadGate.antt =====
-- client/src/features/audio/VadGate.ts: `VadGate`. The level of a frame, which `rmsDb` computes in
-- floating point, and the order of levels are parameters.
pub mod Hangover
pub mod Tests
use onlytwo.Base.{
  ℕ, zero, suc, ◌+◌, ◌-◌, Bool, true, false, not, Option, List, [], ◌∷◌, ◌++◌, ltb, leb, ◌==◌,
  if◌then◌else◌, length,
}

pub record VadConfig (L : Type 0) : Type 0 where
  pub enabled : Bool
  pub start_db : L
  pub stop_db : L
  pub pre_roll_frames : ℕ
  pub hangover_frames : ℕ
  pub min_speech_frames : ℕ

pub record VadDecision (F L : Type 0) : Type 0 where
  pub sends : Bool
  pub started : Bool
  pub stopped : Bool
  pub level_db : L
  pub frames : List F

pub record VadGate (F L : Type 0) : Type 0 where
  pub config : VadConfig L
  pub speaking : Bool
  pub above_start_frames : ℕ
  pub hangover_remaining : ℕ
  pub pre_roll : List F

pub reset : {F L : Type 0} → VadGate F L → VadGate F L
reset g = record g {
  speaking = false;
  above_start_frames = 0;
  hangover_remaining = 0;
  pre_roll = [];
}

pub set_config : {F L : Type 0} → VadGate F L → VadConfig L → VadGate F L
unfolding reset
set_config g config = reset (record g { config = config })

-- `while (preRoll.length > n) preRoll.shift()`
unfoldable pub shift_to : {F : Type 0} → ℕ → List F → List F
shift_to n [] = []
shift_to n (f ∷ fs) = let rest = shift_to n fs in if ltb n (suc (length fs)) then rest else f ∷ fs

module _ {F L : Type 0} (rms_db : F → L) (at_least : L → L → Bool) where
  -- A frame that is sent while speaking, or with the gate off.
  unfoldable pub passed : F → VadDecision F L
  passed f = record {
    sends = true;
    started = false;
    stopped = false;
    level_db = rms_db f;
    frames = f ∷ [];
  }

  -- The branch `!speaking`.
  unfoldable pub listen : VadGate F L → F → VadDecision F L × VadGate F L
  listen g f =
      let rolled = shift_to g.config.pre_roll_frames (g.pre_roll ++ f ∷ []) in
      let above = if at_least (rms_db f) g.config.start_db then g.above_start_frames + 1 else 0 in
      if leb g.config.min_speech_frames above
      then (
        record {
          sends = true;
          started = true;
          stopped = false;
          level_db = rms_db f;
          frames = rolled;
        },
        record g {
          pre_roll = [];
          speaking = true;
          hangover_remaining = g.config.hangover_frames;
          above_start_frames = 0;
        },
      )
      else (
        record {
          sends = false;
          started = false;
          stopped = false;
          level_db = rms_db f;
          frames = [];
        },
        record g { pre_roll = rolled; above_start_frames = above },
      )

  -- The branch `speaking`. `[frame].slice(-n)` is `[frame]` for every n, 0 too.
  unfoldable pub talk : VadGate F L → F → VadDecision F L × VadGate F L
  talk g f =
      if at_least (rms_db f) g.config.stop_db
      then (passed f, record g { hangover_remaining = g.config.hangover_frames })
      else if ltb 0 g.hangover_remaining
      then (passed f, record g { hangover_remaining = g.hangover_remaining - 1 })
      else (
        record { sends = false; started = false; stopped = true; level_db = rms_db f; frames = [] },
        record g { speaking = false; pre_roll = f ∷ [] },
      )

  unfoldable pub process : VadGate F L → F → VadDecision F L × VadGate F L
  process g f =
      if not g.config.enabled
      then (passed f, g)
      else if not g.speaking
      then listen g f
      else talk g f
