-- ===== src/Audio/VoiceQueue.antt =====
-- client/src/features/audio/VoiceQueue.ts: `VoiceFreshnessQueue`. The clock `now()` is an argument.
pub mod Tests
use onlytwo.Base.{
  ap, ◌-◌, Bool-cases, inl, inr, ◌⊎◌, All, take, ℕ, suc, ◌+◌, ◌≤◌, ◌<◌, ◌≡◌, refl, Bool, true,
  false, Option, none, some, List, [], ◌∷◌, ◌++◌, ltb, leb, if◌then◌else◌, length, drop, arith,
}

pub record QueueItem {ℓ} (A : Type ℓ) : Type ℓ where
  pub value : A
  pub queued_at : ℕ

pub record VoiceFreshnessQueue {ℓ} (A : Type ℓ) : Type ℓ where
  pub items : List (QueueItem A)
  pub max_frames : ℕ
  pub max_age_ms : ℕ

pub at_least_one : ℕ → ℕ
at_least_one n = if leb 1 n then n else 1

module _ {ℓ} {A : Type ℓ} where
  -- `trimOverflow`, with the number of frames dropped.
  pub trim_overflow : ℕ → List (QueueItem A) → List (QueueItem A) × ℕ
  trim_overflow max_frames [] = ([], 0)
  trim_overflow max_frames (x ∷ xs) =
      let (kept, dropped) = trim_overflow max_frames xs in
      if ltb max_frames (suc (length xs)) then (kept, suc dropped) else (x ∷ xs, 0)

  pub set_limits : VoiceFreshnessQueue A → ℕ → ℕ → VoiceFreshnessQueue A × ℕ
  set_limits q max_frames max_age_ms =
      let (kept, dropped) = trim_overflow (at_least_one max_frames) q.items in
      (
        record {
          items = kept;
          max_frames = at_least_one max_frames;
          max_age_ms = at_least_one max_age_ms;
        },
        dropped,
      )

  pub push : VoiceFreshnessQueue A → A → ℕ → VoiceFreshnessQueue A × ℕ
  push q value now =
      let (kept, dropped) =
        trim_overflow q.max_frames (q.items ++ record { value = value; queued_at = now } ∷ []) in
      (record q { items = kept }, dropped)

  -- `now - queuedAt > maxAgeMs`
  pub is_stale : ℕ → ℕ → QueueItem A → Bool
  is_stale max_age_ms now x = ltb (x.queued_at + max_age_ms) now

  -- The frame handed out, the number dropped, and the frames that stay.
  pub shift_items : ℕ → ℕ → List (QueueItem A) → Option (QueueItem A) × ℕ × List (QueueItem A)
  shift_items max_age_ms now [] = (none, 0, [])
  shift_items max_age_ms now (x ∷ xs) =
      let (value, dropped, kept) = shift_items max_age_ms now xs in
      if is_stale max_age_ms now x then (value, suc dropped, kept) else (some x, 0, xs)

  pub shift_fresh : VoiceFreshnessQueue A → ℕ → Option (QueueItem A) × ℕ × VoiceFreshnessQueue A
  shift_fresh q now =
      let (value, dropped, kept) = shift_items q.max_age_ms now q.items in
      (value, dropped, record q { items = kept })

  pub clear : VoiceFreshnessQueue A → VoiceFreshnessQueue A × ℕ
  clear q = (record q { items = [] }, length q.items)

  trim_overflow_lem :
      (m : ℕ) (xs : List (QueueItem A))
      → let (kept, dropped) = trim_overflow m xs in
        (kept ≡ drop dropped xs) × (dropped ≡ length xs - m)
  unfolding trim_overflow
  trim_overflow_lem m [] = (refl, omega arith)
  trim_overflow_lem m (x ∷ xs) =
      let (kept, dropped) = trim_overflow_lem m xs in
      elim (Bool-cases (ltb m (suc (length xs)))) [
        | inl e ↦ rw e (kept, ground (arith, dropped))
        | inr e ↦ rw e (refl, ground arith)
      ]

  -- `push` keeps the newest frames: what stays is the queue with the new frame at its end, less the
  -- oldest ones, of which as many are dropped, and counted, as there are above `max_frames`.
  pub push_newest :
      (q : VoiceFreshnessQueue A) (value : A) (now : ℕ)
      → let (after, dropped) = push q value now in
        let whole = q.items ++ record { value = value; queued_at = now } ∷ [] in
        (after.items ≡ drop dropped whole) × (dropped ≡ length whole - q.max_frames)
  unfolding push
  push_newest q value now = trim_overflow_lem q.max_frames _

  shift_items_lem :
      (age now : ℕ) (xs : List (QueueItem A))
      → let (value, dropped, kept) = shift_items age now xs in
        All (λ x. is_stale age now x ≡ true) (take dropped xs)
        × (((value ≡ none) × (dropped ≡ length xs) × (kept ≡ []))
            ⊎ ((x : QueueItem A) × (value ≡ some x)
                × (is_stale age now x ≡ false)
                × (drop dropped xs ≡ x ∷ kept)))
  unfolding shift_items
  shift_items_lem age now [] = (tt, inl (refl, refl, refl))
  shift_items_lem age now (x ∷ xs) =
      let (stale, rest) = shift_items_lem age now xs in
      elim (Bool-cases (is_stale age now x)) [
        | inl e ↦ rw e (
          (e, stale),
          elim rest [ inl (a, b, c) ↦ inl (a, ap suc b, c) | inr (y, a, b, c) ↦ inr (y, a, b, c) ],
        )
        | inr e ↦ rw e (tt, inr (x, refl, e, refl))
      ]

  -- `shift_fresh` drops, and counts, exactly the stale frames at the head of the queue: either all
  -- were stale and none is left, or it hands out the first frame that is not, and keeps the rest.
  pub shift_fresh_lem :
      (q : VoiceFreshnessQueue A) (now : ℕ)
      → let (value, dropped, after) = shift_fresh q now in
        All (λ x. is_stale q.max_age_ms now x ≡ true) (take dropped q.items)
        × (((value ≡ none) × (dropped ≡ length q.items) × (after.items ≡ []))
            ⊎ ((x : QueueItem A) × (value ≡ some x)
                × (is_stale q.max_age_ms now x ≡ false)
                × (drop dropped q.items ≡ x ∷ after.items)))
  unfolding shift_fresh
  shift_fresh_lem q now = shift_items_lem q.max_age_ms now q.items
