-- ===== src/Files/Sender/Window.antt =====
-- The invariant of a transfer, kept by `sendChunk`, `scheduleRetry`, `fail` and their like.
use onlytwo.Base.{
  contains, ℕ, suc, ◌+◌, ◌≤◌, ◌<◌, ◌≡◌, ◌≢◌, Bool, true, false, ◌||◌, Option, some, List, ◌==◌, ltb,
  if◌then◌else◌, if_known, if_either, length, arith, ==_iff, Bool-cases, inl, inr, subst, sym,
}
use onlytwo.Config.Profile.{TransportProfile}
use onlytwo.Files.Sender.{
  Transfer, completed, Event, InflightChunk, Timer, Note, ack_timeout, resend,
}
use onlytwo.Files.Sender.Inflight.{get, has, put, has-put, length-put, get-has}
use onlytwo.Files.Sender.Chunks.{
  Outcome, taken, refused, threw, keep, fail, fail_and_notify, send_chunk, schedule_retry,
  chunk_sent, fire,
}

-- The parts of a transfer that the invariant is about.
pub record IsSound (profile : TransportProfile) (t : Transfer) : Type 0 where
  pub bounded : t.next_index ≤ t.total_chunks
  pub covered :
      t.is_cancelled ≡ false
      → (i : ℕ) → i < t.next_index
      → (contains t.acked i || has i t.inflight) ≡ true
  pub window : length t.inflight ≤ profile.files.window_chunks
  pub done : t.status ≡ completed → (i : ℕ) → i < t.total_chunks → contains t.acked i ≡ true

module _ (profile : TransportProfile) where
  -- A chunk may be put in flight: the chunks before `n` but this one were taken before, and there is
  -- room for it.
  pub record CanKeep (t : Transfer) (n i : ℕ) : Type 0 where
    pub in_total : n ≤ t.total_chunks
    pub near : (j : ℕ) → j < n → j ≢ i → j < t.next_index
    pub room :
        t.is_cancelled ≡ false
        → contains t.acked i ≡ false
        → (if has i t.inflight then length t.inflight else suc (length t.inflight))
          ≤ profile.files.window_chunks

  -- A chunk that was taken before is in flight, or needs not be.
  pub taken-CanKeep :
      (t : Transfer) (i : ℕ) → IsSound profile t → i < t.next_index → CanKeep t t.next_index i
  taken-CanKeep t i v l = record {
    in_total = v.bounded;
    near = λ j h _. h;
    room = λ c a. let there = v.covered c i l in let w = v.window in ground (arith, there, a, w);
  }

  -- A chunk in flight may stay so.
  pub held-CanKeep :
      (t : Transfer) (i : ℕ) (c : InflightChunk)
      → IsSound profile t
      → get i t.inflight ≡ some c
      → CanKeep t t.next_index i
  held-CanKeep t i c v e = record {
    in_total = v.bounded;
    near = λ j l _. l;
    room =
        λ _ _. let there = get-has i t.inflight c e in let w = v.window in ground (arith, there, w);
  }

  pub keep-IsSound :
      (t : Transfer) (n i : ℕ) (c : InflightChunk) (why : Option Note)
      → IsSound profile t
      → CanKeep t n i
      → t.is_cancelled ≡ false
      → contains t.acked i ≡ false
      → IsSound profile (record t { next_index = n; inflight = put i c t.inflight; reason = why })
  keep-IsSound t n i c why v k live new = record {
    bounded = k.in_total;
    covered = covered;
    window =
        let room = k.room live new in let l = length-put i c t.inflight in omega (arith, room, l);
    done = v.done;
  }
    where
      covered :
          t.is_cancelled ≡ false
          → (j : ℕ) → j < n
          → (contains t.acked j || has j (put i c t.inflight)) ≡ true
      covered live j l =
          let e = has-put i j c t.inflight in
          elim (Bool-cases (j == i)) [
            | inl same ↦ ground (arith, e, same)
            | inr other ↦
                let before = v.covered live j (k.near j l (λ s. ground (arith, s, other))) in
                ground (arith, e, other, before)
          ]

  pub fail-IsSound :
      (t : Transfer) (n : ℕ) (why : Note)
      → IsSound profile t
      → n ≤ t.total_chunks
      → IsSound profile (fail_and_notify (record t { next_index = n }) why).0
  unfolding fail_and_notify fail
  fail-IsSound t n why v l = record {
    bounded = l;
    covered = λ live. absurd (cc);
    window = omega arith;
    done = λ e. absurd (cc);
  }

  -- A chunk that needs no sending is not sent.
  skip-IsSound :
      (t : Transfer) (n i : ℕ)
      → IsSound profile t
      → CanKeep t n i
      → (t.is_cancelled || contains t.acked i) ≡ true
      → IsSound profile (record t { next_index = n })
  skip-IsSound t n i v k h = record {
    bounded = k.in_total;
    covered = covered;
    window = v.window;
    done = v.done;
  }
    where
      covered :
          t.is_cancelled ≡ false → (j : ℕ) → j < n → (contains t.acked j || has j t.inflight) ≡ true
      covered live j l = elim (Bool-cases (j == i)) [
        | inl same ↦
            let e = (==_iff j i).0 same in
            subst (λ m. (contains t.acked m || has m t.inflight) ≡ true) (sym e)
              (ground (arith, h, live))
        | inr other ↦ v.covered live j (k.near j l (λ s. ground (arith, s, other)))
      ]

  pub send_chunk-IsSound :
      (gp : Bool) (t : Transfer) (n i attempts : ℕ)
      → IsSound profile t
      → CanKeep t n i
      → IsSound profile (send_chunk profile gp (record t { next_index = n }) i attempts).0
  unfolding send_chunk keep
  send_chunk-IsSound gp t n i attempts v k =
      let Holds : Transfer × List Event → Type 0 = λ x. IsSound profile x.0 in
      if_known Holds (t.is_cancelled || contains t.acked i) (skip-IsSound t n i v k) (λ h.
        let kept = λ (c : InflightChunk) (why : Option Note).
          keep-IsSound t n i c why v k (ground (arith, h)) (ground (arith, h)) in
        if_either Holds (t.is_paused || gp) (kept _ _) (
          if_either Holds (ltb (profile.files.max_retries + 1) attempts)
            (fail-IsSound t n _ v k.in_total) (kept _ _)))

  pub schedule_retry-IsSound :
      (gp : Bool) (t : Transfer) (i attempts : ℕ) (why : Note)
      → IsSound profile t
      → CanKeep t t.next_index i
      → IsSound profile (schedule_retry profile gp t i attempts why).0
  unfolding schedule_retry keep
  schedule_retry-IsSound gp t i attempts why v k =
      let Holds : Transfer × List Event → Type 0 = λ x. IsSound profile x.0 in
      if_known Holds (t.is_cancelled || contains t.acked i) (λ _. v)
        (λ h.
          if_either Holds (ltb (profile.files.max_retries + 1) attempts)
            (fail-IsSound t t.next_index _ v v.bounded)
            (keep-IsSound t t.next_index i _ _ v k (ground (arith, h)) (ground (arith, h))))

  pub chunk_sent-IsSound :
      (gp : Bool) (t : Transfer) (i attempts : ℕ) (o : Outcome)
      → IsSound profile t
      → i < t.next_index
      → IsSound profile (chunk_sent profile gp t i attempts o).0
  unfolding chunk_sent keep
  chunk_sent-IsSound gp t i attempts refused v l =
      schedule_retry-IsSound gp t i _ _ v (taken-CanKeep t i v l)
  chunk_sent-IsSound gp t i attempts (threw m) v l =
      schedule_retry-IsSound gp t i _ _ v (taken-CanKeep t i v l)
  chunk_sent-IsSound gp t i attempts taken v l =
      let Holds : Transfer × List Event → Type 0 = λ x. IsSound profile x.0 in
      if_known Holds (t.is_cancelled || contains t.acked i) (λ _. v)
        (λ h.
          keep-IsSound t t.next_index i _ _ v (taken-CanKeep t i v l) (ground (arith, h))
            (ground (arith, h)))

  pub fire-IsSound :
      (gp : Bool) (t : Transfer) (i : ℕ) (timer : Timer)
      → IsSound profile t
      → i < t.next_index
      → IsSound profile (fire profile gp t i timer).0
  unfolding fire
  fire-IsSound gp t i (ack_timeout n) v l =
      schedule_retry-IsSound gp t i _ _ v (taken-CanKeep t i v l)
  fire-IsSound gp t i (resend n) v l =
      send_chunk-IsSound gp t t.next_index i n v (taken-CanKeep t i v l)
