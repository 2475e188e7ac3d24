-- ===== src/Audio/JitterBuffer/Order.antt =====
-- What `push` of client/src/features/audio/JitterBuffer.ts keeps.
use onlytwo.Base.{
  ℕ, zero, suc, ◌≤◌, ◌<◌, ◌≡◌, refl, true, false, Option, none, some, ltb, ◌==◌, if_known,
  if_either, length, arith,
}
use onlytwo.Audio.JitterBuffer.{
  JitterBuffer, put, oldest, is_late, skipped, evict_oldest, trim, push,
}
use onlytwo.Audio.JitterBuffer.Frames.{
  has, AreDistinct, has-put, put-AreDistinct, has-delete, delete-AreDistinct, length-delete,
  oldest-has, oldest_some,
}

-- No frame before this one will be given out.
abbrev pub due : Option ℕ → ℕ
due none = 0
due (some e) = e

due-skipped : (x : Option ℕ) (n : ℕ) → due x ≤ due (skipped x n)
unfolding skipped
due-skipped none n = omega arith
due-skipped (some e) n = ground arith

due_passed : (x : Option ℕ) (n m : ℕ) → due x ≤ m → (m == n) ≡ false → due (skipped x n) ≤ m
unfolding skipped
due_passed none n m l h = omega arith
due_passed (some e) n m l h = ground (arith, l, h)

module _ {T : Type 0} (seq : T → ℕ) where
  pub record IsOrdered (b : JitterBuffer T) : Type 0 where
    pub distinct : AreDistinct seq b.frames
    pub ahead : (m : ℕ) → has seq m b.frames ≡ true → due b.expected ≤ m

  pub record IsAfter (b after : JitterBuffer T) : Type 0 where
    pub ordered : IsOrdered after
    pub later : due b.expected ≤ due after.expected

  evict-IsAfter :
      (b : JitterBuffer T) (n : ℕ)
      → IsOrdered b
      → has seq n b.frames ≡ true
      → IsAfter b (evict_oldest seq b (some n))
  unfolding evict_oldest
  evict-IsAfter b n v h = record {
    ordered = record {
      distinct = delete-AreDistinct seq n b.frames v.distinct;
      ahead = λ m k.
          let old = has-delete seq m n b.frames v.distinct in
          due_passed b.expected n m (v.ahead m (ground (arith, old, k))) (ground (arith, old, k));
    };
    later = due-skipped b.expected n;
  }

  -- A round of the loop, before the rounds that `again` is about.
  evicted-IsAfter :
      (n : ℕ) (b : JitterBuffer T) (o : Option ℕ)
      → ((c : JitterBuffer T) → IsOrdered c → IsAfter c (trim seq n c))
      → oldest seq b.frames ≡ o
      → IsOrdered b
      → IsAfter b (trim seq n (evict_oldest seq b o))
  unfolding evict_oldest
  evicted-IsAfter n b none again e v = again b v
  evicted-IsAfter n b (some k) again e v =
      let first = evict-IsAfter b k v (oldest-has seq b.frames k e).0 in
      let rest = again (evict_oldest seq b (some k)) first.ordered in
      record { ordered = rest.ordered; later = omega (arith, first.later, rest.later) }

  trim-IsAfter : (n : ℕ) (b : JitterBuffer T) → IsOrdered b → IsAfter b (trim seq n b)
  unfolding trim
  trim-IsAfter zero b v = record { ordered = v; later = omega arith }
  trim-IsAfter (suc n) b v =
      if_either (IsAfter b) (ltb b.max_frames (length b.frames))
        (evicted-IsAfter n b (oldest seq b.frames) (trim-IsAfter n) refl v)
        (record { ordered = v; later = omega arith })

  evicted_fewer :
      (n : ℕ) (b : JitterBuffer T) (o : Option ℕ)
      → oldest seq b.frames ≡ o
      → b.max_frames < length b.frames
      → length b.frames ≤ suc n
      → length (evict_oldest seq b o).frames ≤ n
  unfolding evict_oldest
  evicted_fewer n b none e h l = let empty = oldest_some seq b.frames e in omega (arith, h, empty)
  evicted_fewer n b (some k) e h l =
      let fewer = length-delete seq k b.frames (oldest-has seq b.frames k e).0 in
      omega (arith, fewer, l)

  evicted_limit :
      (b : JitterBuffer T) (o : Option ℕ) → (evict_oldest seq b o).max_frames ≡ b.max_frames
  unfolding evict_oldest
  evicted_limit b none = refl
  evicted_limit b (some k) = refl

  -- The rounds are enough: the loop ends with no more frames than the buffer holds.
  pub trim_enough :
      (n : ℕ) (b : JitterBuffer T)
      → length b.frames ≤ n
      → length (trim seq n b).frames ≤ b.max_frames
  unfolding trim
  trim_enough zero b l = omega (arith, l)
  trim_enough (suc n) b l =
      let o = oldest seq b.frames in
      if_known (λ (x : JitterBuffer T). length x.frames ≤ b.max_frames)
        (ltb b.max_frames (length b.frames))
        (λ h.
          let rest =
            trim_enough n (evict_oldest seq b o) (evicted_fewer n b o refl (ground (arith, h)) l) in
          omega (arith, rest, evicted_limit b o))
        (λ h. ground (arith, h))

  pub push-IsAfter : (b : JitterBuffer T) (f : T) → IsOrdered b → IsAfter b (push seq b f)
  unfolding push is_late
  push-IsAfter b f v =
      if_known (IsAfter b) (is_late b.expected (seq f))
        (λ _. record { ordered = v; later = omega arith })
        (λ on_time.
          let kept =
            trim-IsAfter (length (put seq f b.frames)) (record b { frames = put seq f b.frames })
              (record {
                distinct = put-AreDistinct seq f b.frames v.distinct;
                ahead = ahead b.expected on_time v.ahead;
              }) in
          record { ordered = kept.ordered; later = kept.later })
    where
      ahead :
          (x : Option ℕ)
          → is_late x (seq f) ≡ false
          → ((m : ℕ) → has seq m b.frames ≡ true → due x ≤ m)
          → (m : ℕ) → has seq m (put seq f b.frames) ≡ true
          → due x ≤ m
      ahead none on_time old m h = omega arith
      ahead (some e) on_time old m h =
          let new = has-put seq m f b.frames in
          let before = old m in ground (arith, on_time, new, h, before)
