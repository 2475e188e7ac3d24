-- ===== src/Files/Sender/Full.antt =====
-- The loop of `pump` ends by itself: when it stops, the window is full or no chunk is left.
use onlytwo.Base.{
  Option, ℕ, zero, suc, ◌+◌, ◌-◌, ◌≤◌, ◌≡◌, ◌∙◌, refl, Bool, true, false, not, ◌||◌, List, ltb,
  if_known, if_either, length, arith, inr, ◌⊎◌, contains,
}
use onlytwo.Config.Profile.{TransportProfile}
use onlytwo.Files.Sender.{Transfer, Event, Note}
use onlytwo.Files.Sender.Inflight.{Inflight}
use onlytwo.Files.Sender.Chunks.{send_chunk, keep}
use onlytwo.Files.Sender.Pump.{complete_if_done, has_room, fill, may_pump, pump}

-- What the first sending of a chunk leaves alone.
record IsAlike (t u : Transfer) : Type 0 where
  same_next : u.next_index ≡ t.next_index
  same_total : u.total_chunks ≡ t.total_chunks
  same_cancelled : u.is_cancelled ≡ t.is_cancelled
  same_paused : u.is_paused ≡ t.is_paused

module _ (profile : TransportProfile) (gp : Bool) where
  kept-IsAlike :
      (t : Transfer) (m : Inflight) (why : Option Note)
      → IsAlike t (record t { inflight = m; reason = why })
  kept-IsAlike t m why = record {
    same_next = refl;
    same_total = refl;
    same_cancelled = refl;
    same_paused = refl;
  }

  first-IsAlike : (t : Transfer) (i : ℕ) → IsAlike t (send_chunk profile gp t i 1).0
  unfolding send_chunk keep
  first-IsAlike t i =
      let Holds : Transfer × List Event → Type 0 = λ x. IsAlike t x.0 in
      if_either Holds (t.is_cancelled || contains t.acked i) (kept-IsAlike t _ _) (
        if_either Holds (t.is_paused || gp) (kept-IsAlike t _ _) (
          if_known Holds (ltb (profile.files.max_retries + 1) 1) (λ h. absurd (ground (arith, h)))
            (λ _. kept-IsAlike t _ _)))

  -- After enough rounds, the window is full or no chunk is left, and the transfer goes on.
  record IsFull (t : Transfer) : Type 0 where
    live : t.is_cancelled ≡ false
    stopped : (profile.files.window_chunks ≤ length t.inflight) ⊎ (t.total_chunks ≤ t.next_index)

  fill-IsFull :
      (n : ℕ) (t : Transfer)
      → t.total_chunks - t.next_index ≤ n
      → t.is_cancelled ≡ false
      → t.is_paused ≡ false
      → gp ≡ false
      → IsFull (fill profile gp n t).0
  unfolding fill has_room
  fill-IsFull zero t l c p g = record { live = c; stopped = inr (omega arith) }
  fill-IsFull (suc n) t l c p g =
      let next = record t { next_index = t.next_index + 1 } in
      let a = first-IsAlike next t.next_index in
      if_known (λ (x : Transfer × List Event). IsFull x.0) (has_room profile gp t)
        (λ h.
          fill-IsFull n _ (ground (arith, a.same_next, a.same_total, l, h)) (a.same_cancelled ∙ c)
            (a.same_paused ∙ p) g)
        (λ h. record { live = c; stopped = ground (arith, h, c, p, g) })

  done-IsFull : (t : Transfer) → IsFull t → IsFull (complete_if_done t).0
  unfolding complete_if_done
  done-IsFull t f =
      let Holds : Transfer × List Event → Type 0 = λ x. IsFull x.0 in
      if_either Holds t.is_cancelled f (
        if_either Holds
          (ltb t.next_index t.total_chunks
            || ltb 0 (length t.inflight)
            || ltb (length t.acked) t.total_chunks)
          f (record { live = f.live; stopped = f.stopped }))

-- When `pump` runs, it leaves the window full or every chunk taken, and does not cancel the transfer.
pub pump_fills :
    (profile : TransportProfile) (global_paused : Bool) (t : Transfer)
    → t.pumping ≡ false
    → may_pump profile global_paused t ≡ true
    → let u = (pump profile global_paused t).0 in
      (u.is_cancelled ≡ false)
      × ((profile.files.window_chunks ≤ length u.inflight) ⊎ (u.total_chunks ≤ u.next_index))
unfolding pump may_pump
pump_fills profile gp t e h =
    let full =
      if_known (λ (x : Transfer × List Event). IsFull profile gp x.0)
        (t.pumping || not (may_pump profile gp t)) (λ k. absurd (ground (arith, k, e, h)))
        (λ _. done-IsFull profile gp _ (
          fill-IsFull profile gp _ (record t { pumping = true }) (omega arith) (ground (arith, h))
            (ground (arith, h)) (ground (arith, h)))) in
    (full.live, full.stopped)
