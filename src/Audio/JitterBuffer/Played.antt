-- ===== src/Audio/JitterBuffer/Played.antt =====
-- What `pop` of client/src/features/audio/JitterBuffer.ts gives, one frame after the other.
use onlytwo.Base.{
  ℕ, ◌+◌, ◌≤◌, ◌≡◌, refl, subst, true, false, Option, none, some, List, [], ◌∷◌, length, arith,
}
use onlytwo.Audio.JitterBuffer.{
  JitterBuffer, get, put, delete, oldest, is_late, awaited, push, pop_oldest, pop_exact, pop_from,
  pop,
}
use onlytwo.Audio.JitterBuffer.Frames.{
  has, AreDistinct, get-has, has-delete, delete-AreDistinct, oldest-has, get-none,
}
use onlytwo.Audio.JitterBuffer.Order.{due, IsOrdered, IsAfter, push-IsAfter, trim_enough}

-- The calls of a buffer.
pub data Op (T : Type 0) : Type 0 where
  pushes : T → Op T
  pops : Op T

prepend : {T : Type 0} → Option T → List T → List T
prepend none fs = fs
prepend (some f) fs = f ∷ fs

module _ {T : Type 0} (seq : T → ℕ) where
  -- The frames that the calls give out, in turn.
  unfoldable pub played : JitterBuffer T → List (Op T) → List T
  unfolding prepend
  played b [] = []
  played b (pushes f ∷ ops) = played (push seq b f) ops
  played b (pops ∷ ops) = let (o, after) = pop seq b in prepend o (played after ops)

  -- The frames' numbers increase, from `low` on.
  unfoldable pub IsIncreasing : ℕ → List T → Type 0
  IsIncreasing low [] = Unit
  IsIncreasing low (f ∷ fs) = (low ≤ seq f) × IsIncreasing (seq f + 1) fs

  -- After `pop`, with the frame that it gave.
  IsPopped : JitterBuffer T → Option T × JitterBuffer T → Type 0
  IsPopped b (none, after) = IsAfter seq b after
  IsPopped b (some f, after) =
      IsOrdered seq after × (due b.expected ≤ seq f) × (due after.expected ≡ seq f + 1)

  taken-IsPopped :
      (b : JitterBuffer T) (n : ℕ) (f : T)
      → IsOrdered seq b
      → get seq n b.frames ≡ some f
      → ((m : ℕ) → has seq m b.frames ≡ true → n ≤ m)
      → IsPopped b (some f, record b { frames = delete seq n b.frames; expected = some (n + 1) })
  unfolding IsPopped
  taken-IsPopped b n f v e least =
      let (same, there) = get-has seq n b.frames f e in
      (
        record {
          distinct = delete-AreDistinct seq n b.frames v.distinct;
          ahead = λ m k.
              let old = has-delete seq m n b.frames v.distinct in
              let low = least m in ground (arith, old, k, low);
        },
        omega (arith, v.ahead n there, same),
        omega (arith, same),
      )

  pop_oldest-IsPopped :
      (b : JitterBuffer T) (e n : ℕ) (o : Option T)
      → IsOrdered seq b
      → get seq n b.frames ≡ o
      → ((m : ℕ) → has seq m b.frames ≡ true → n ≤ m)
      → has seq n b.frames ≡ true
      → IsPopped b (pop_oldest seq b e n o)
  unfolding pop_oldest
  pop_oldest-IsPopped b e n none v g least there =
      let lost = get-none seq n b.frames g in absurd (ground (arith, lost, there))
  pop_oldest-IsPopped b e n (some f) v g least there = taken-IsPopped b n f v g least

  pop_exact-IsPopped :
      (b : JitterBuffer T) (n : ℕ) (o : Option T)
      → IsOrdered seq b
      → get seq (awaited b.expected n) b.frames ≡ o
      → ((m : ℕ) → has seq m b.frames ≡ true → n ≤ m)
      → has seq n b.frames ≡ true
      → IsPopped b (pop_exact seq b (awaited b.expected n) n o)
  unfolding pop_exact awaited
  pop_exact-IsPopped b n none v g least there =
      pop_oldest-IsPopped b (awaited b.expected n) n (get seq n b.frames) v refl least there
  pop_exact-IsPopped b n (some f) v g least there =
      taken-IsPopped b (awaited b.expected n) f v g (ahead b.expected v.ahead)
    where
      ahead :
          (x : Option ℕ)
          → ((m : ℕ) → has seq m b.frames ≡ true → due x ≤ m)
          → (m : ℕ) → has seq m b.frames ≡ true
          → awaited x n ≤ m
      ahead none old m h = least m h
      ahead (some e) old m h = old m h

  pop-IsPopped : (b : JitterBuffer T) → IsOrdered seq b → IsPopped b (pop seq b)
  unfolding pop IsPopped pop_from
  pop-IsPopped b v = from (oldest seq b.frames) refl
    where
      from : (o : Option ℕ) → oldest seq b.frames ≡ o → IsPopped b (pop_from seq b o)
      from none e = record { ordered = v; later = omega arith }
      from (some n) e =
          let (there, least) = oldest-has seq b.frames n e in
          pop_exact-IsPopped b n (get seq (awaited b.expected n) b.frames) v refl least there

  weaken-IsIncreasing :
      (low high : ℕ) (fs : List T) → low ≤ high → IsIncreasing high fs → IsIncreasing low fs
  unfolding IsIncreasing
  weaken-IsIncreasing low high [] l h = tt
  weaken-IsIncreasing low high (f ∷ fs) l h = (omega (arith, l, h.0), h.1)

  played-IsIncreasing :
      (b : JitterBuffer T) (ops : List (Op T))
      → IsOrdered seq b
      → IsIncreasing (due b.expected) (played b ops)
  unfolding played IsIncreasing IsPopped
  played-IsIncreasing b [] v = tt
  played-IsIncreasing b (pushes f ∷ ops) v =
      let a = push-IsAfter seq b f v in
      weaken-IsIncreasing (due b.expected) _ _ a.later
        (played-IsIncreasing (push seq b f) ops a.ordered)
  played-IsIncreasing b (pops ∷ ops) v =
      given (pop seq b) (pop-IsPopped b v) (played-IsIncreasing (pop seq b).1 ops)
    where
      given :
          (x : Option T × JitterBuffer T)
          → IsPopped b x
          → (IsOrdered seq x.1 → IsIncreasing (due x.1.expected) (played x.1 ops))
          → IsIncreasing (due b.expected) (prepend x.0 (played x.1 ops))
      given (none, after) a rest = weaken-IsIncreasing (due b.expected) _ _ a.later (rest a.ordered)
      given (some f, after) (v, low, next) rest =
          (low, subst (λ n. IsIncreasing n (played after ops)) next (rest v))

unfoldable pub new : {T : Type 0} → ℕ → JitterBuffer T
new max_frames = record { frames = []; expected = none; max_frames = max_frames }

-- Whatever is pushed into a new buffer and whenever it is popped, the frames come out with strictly
-- increasing numbers: in order, and none twice.
pub plays_in_order :
    {T : Type 0} (seq : T → ℕ) (max_frames : ℕ) (ops : List (Op T))
    → IsIncreasing seq 0 (played seq (new max_frames) ops)
unfolding new AreDistinct has
plays_in_order seq max_frames ops =
    played-IsIncreasing seq (new max_frames) ops
      (record { distinct = tt; ahead = λ m h. omega arith })

-- The loop of a push ends: a buffer with any number of frames has, after the push of a frame that is
-- not late, no more than it may hold.
pub push_bounded :
    {T : Type 0} (seq : T → ℕ) (b : JitterBuffer T) (f : T)
    → is_late b.expected (seq f) ≡ false
    → length (push seq b f).frames ≤ b.max_frames
unfolding push
push_bounded seq b f on_time = rw on_time (
    trim_enough seq (length (put seq f b.frames)) (record b { frames = put seq f b.frames })
      (omega arith))
