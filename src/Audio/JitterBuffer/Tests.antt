-- ===== src/Audio/JitterBuffer/Tests.antt =====
-- A jitter buffer of two frames.
use onlytwo.Base.{ℕ, ◌≤◌, ◌≡◌, refl, some, List, [], ◌∷◌, length}
use onlytwo.Audio.JitterBuffer.{
  JitterBuffer, push, pop, put, trim, evict_oldest, oldest, earlier, get, delete, is_late, skipped,
  awaited, pop_from, pop_exact, pop_oldest,
}
use onlytwo.Audio.JitterBuffer.Played.{
  Op, pushes, pops, new, played, IsIncreasing, plays_in_order, push_bounded,
}

abbrev plain : ℕ → ℕ
plain n = n

abbrev mixed : List (Op ℕ)
mixed = pushes 4 ∷ pushes 2 ∷ pushes 3 ∷ pops ∷ pushes 2 ∷ pops ∷ pops ∷ []

-- The oldest frame is dropped, and the late one is refused.
mixed_lem : played plain (new 2) mixed ≡ 3 ∷ 4 ∷ []
unfolding played push pop put trim evict_oldest oldest earlier get delete is_late skipped awaited
    pop_from pop_exact pop_oldest new
mixed_lem = refl

plays_in_order_example : IsIncreasing plain 0 (played plain (new 2) mixed)
plays_in_order_example = plays_in_order plain 2 mixed

abbrev full : JitterBuffer ℕ
full = record { frames = 4 ∷ 5 ∷ []; expected = some 4; max_frames = 2 }

push_bounded_example : length (push plain full 6).frames ≤ 2
unfolding is_late
push_bounded_example = push_bounded plain full 6 refl
