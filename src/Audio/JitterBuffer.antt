-- ===== src/Audio/JitterBuffer.antt =====
-- client/src/features/audio/JitterBuffer.ts: `JitterBuffer`. Its map has the frames by their own `seq`,
-- so it is the list of them, in insertion order.
pub mod Frames
pub mod Order
pub mod Played
pub mod Tests
use onlytwo.Base.{
  ℕ, zero, suc, ◌+◌, Bool, true, false, ◌||◌, Option, none, some, List, [], ◌∷◌, ltb, ◌==◌,
  if◌then◌else◌, length, min, max,
}

module _ {T : Type 0} (seq : T → ℕ) where
  -- `get`, `set`, which keeps the place of a key that is there, and `delete`.
  unfoldable pub get : ℕ → List T → Option T
  get n [] = none
  get n (f ∷ fs) = if n == seq f then some f else get n fs

  unfoldable pub put : T → List T → List T
  put g [] = g ∷ []
  put g (f ∷ fs) = if seq g == seq f then g ∷ fs else f ∷ put g fs

  unfoldable pub delete : ℕ → List T → List T
  delete n [] = []
  delete n (f ∷ fs) = if n == seq f then fs else f ∷ delete n fs

  unfoldable pub earlier : ℕ → Option ℕ → ℕ
  earlier n none = n
  earlier n (some m) = min n m

  -- `Math.min(...keys)`, of some keys.
  unfoldable pub oldest : List T → Option ℕ
  unfolding earlier
  oldest [] = none
  oldest (f ∷ fs) = some (earlier (seq f) (oldest fs))

pub record JitterBuffer (T : Type 0) : Type 0 where
  pub frames : List T
  pub expected : Option ℕ
  pub max_frames : ℕ

-- `expected !== null && seq < expected`
unfoldable pub is_late : Option ℕ → ℕ → Bool
is_late none n = false
is_late (some e) n = ltb n e

unfoldable pub skipped : Option ℕ → ℕ → Option ℕ
skipped none n = none
skipped (some e) n = if n == e then some (e + 1) else some e

-- `expected ?? oldest`
unfoldable pub awaited : Option ℕ → ℕ → ℕ
awaited none n = n
awaited (some e) n = e

module _ {T : Type 0} (seq : T → ℕ) where
  unfoldable pub evict_oldest : JitterBuffer T → Option ℕ → JitterBuffer T
  evict_oldest b none = b
  evict_oldest b (some n) = record b {
    frames = delete seq n b.frames;
    expected = skipped b.expected n;
  }

  -- The loop of `push`, for at most so many rounds.
  unfoldable pub trim : ℕ → JitterBuffer T → JitterBuffer T
  trim zero b = b
  trim (suc n) b =
      let rest = trim n (evict_oldest b (oldest seq b.frames)) in
      if ltb b.max_frames (length b.frames) then rest else b

  unfoldable pub push : JitterBuffer T → T → JitterBuffer T
  push b f =
      let kept = put seq f b.frames in
      if is_late b.expected (seq f) then b else trim (length kept) (record b { frames = kept })

  unfoldable pub pop_oldest : JitterBuffer T → ℕ → ℕ → Option T → Option T × JitterBuffer T
  pop_oldest b e n none = (none, record b { expected = some (max e n) })
  pop_oldest b e n (some f) =
      (some f, record b { frames = delete seq n b.frames; expected = some (n + 1) })

  unfoldable pub pop_exact : JitterBuffer T → ℕ → ℕ → Option T → Option T × JitterBuffer T
  pop_exact b e n (some f) =
      (some f, record b { frames = delete seq e b.frames; expected = some (e + 1) })
  pop_exact b e n none = pop_oldest b e n (get seq n b.frames)

  unfoldable pub pop_from : JitterBuffer T → Option ℕ → Option T × JitterBuffer T
  pop_from b none = (none, b)
  pop_from b (some n) = let e = awaited b.expected n in pop_exact b e n (get seq e b.frames)

  unfoldable pub pop : JitterBuffer T → Option T × JitterBuffer T
  pop b = pop_from b (oldest seq b.frames)

pub clear : {T : Type 0} → JitterBuffer T → JitterBuffer T
clear b = record b { frames = []; expected = none }

pub size : {T : Type 0} → JitterBuffer T → ℕ
size b = length b.frames
