-- ===== src/Config/Lanes.antt =====
-- The lanes of client/src/config/profiles.ts, and the `Record<LaneName, _>` tables over them.
use onlytwo.Base.{ℕ, ◌≡◌, refl, ◌≢◌, Bool, true, false, arith}

pub data Lane : Type 0 where
  control text file voice : Lane

pub data DropPolicy : Type 0 where
  fail drop_oldest : DropPolicy

pub record LaneBudget : Type 0 where
  pub priority : ℕ
  pub max_packets : ℕ
  pub max_bytes : ℕ
  pub drop_policy : DropPolicy

-- One value for each lane.
pub record PerLane {ℓ} (A : Type ℓ) : Type ℓ where
  pub control : A
  pub text : A
  pub file : A
  pub voice : A

module _ {ℓ} {A : Type ℓ} where
  abbrev pub at : PerLane A → Lane → A
  at t Lane.control = t.control
  at t Lane.text = t.text
  at t Lane.file = t.file
  at t Lane.voice = t.voice

  abbrev pub put : PerLane A → Lane → A → PerLane A
  put t Lane.control a = record t { control = a }
  put t Lane.text a = record t { text = a }
  put t Lane.file a = record t { file = a }
  put t Lane.voice a = record t { voice = a }

  pub at-put_self : (t : PerLane A) (l : Lane) (a : A) → at (put t l a) l ≡ a
  at-put_self t Lane.control a = refl
  at-put_self t Lane.text a = refl
  at-put_self t Lane.file a = refl
  at-put_self t Lane.voice a = refl

  pub at-put_ne : (t : PerLane A) (l m : Lane) (a : A) → m ≢ l → at (put t l a) m ≡ at t m
  at-put_ne t l m a h = ground arith

abbrev pub lane_eq : Lane → Lane → Bool
lane_eq Lane.control Lane.control = true
lane_eq Lane.text Lane.text = true
lane_eq Lane.file Lane.file = true
lane_eq Lane.voice Lane.voice = true
lane_eq _ _ = false

abbrev pub is_drop_oldest : DropPolicy → Bool
is_drop_oldest drop_oldest = true
is_drop_oldest fail = false
