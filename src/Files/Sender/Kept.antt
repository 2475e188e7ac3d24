-- ===== src/Files/Sender/Kept.antt =====
-- The invariant of a transfer, kept by `pump`, `resumeOutstanding` and the methods.
use onlytwo.Base.{
  ℕ, zero, suc, ◌+◌, ◌≡◌, refl, Bool, true, false, not, ◌||◌, Option, none, some, List, [], ◌∷◌,
  ltb, if_known, if_either, length, arith,
}
use onlytwo.Config.Profile.{TransportProfile}
use onlytwo.Files.Sender.{Transfer, SenderStatus, completed, Event, InflightChunk, Note}
use onlytwo.Files.Sender.Inflight.{Inflight, get, has, keys, has-hold, length-hold}
use onlytwo.Files.Sender.Pump.{
  hold_outstanding, complete_if_done, has_room, fill, may_pump, pump, is_held, resume_chunk,
  resume_chunks, resume_outstanding,
}
use onlytwo.Files.Sender.Window.{IsSound, CanKeep, send_chunk-IsSound, held-CanKeep}

module _ (profile : TransportProfile) where
  -- What the invariant does not mention may change.
  pub told-IsSound :
      (t : Transfer) (status : SenderStatus) (accepted is_paused pumping : Bool) (why : Option Note)
      → IsSound profile t
      → (status ≡ completed → t.status ≡ completed)
      → IsSound profile (record t {
        status = status;
        accepted = accepted;
        is_paused = is_paused;
        pumping = pumping;
        reason = why;
      })
  told-IsSound t status accepted is_paused pumping why v h = record {
    bounded = v.bounded;
    covered = v.covered;
    window = v.window;
    done = λ e. v.done (h e);
  }

  pub hold-IsSound : (t : Transfer) → IsSound profile t → IsSound profile (hold_outstanding t)
  unfolding hold_outstanding
  hold-IsSound t v = record {
    bounded = v.bounded;
    covered = λ live i l. let e = has-hold i t.inflight in rw e (v.covered live i l);
    window = let e = length-hold t.inflight in let w = v.window in omega (arith, e, w);
    done = v.done;
  }

  has-none : (i : ℕ) (m : Inflight) → length m ≡ 0 → has i m ≡ false
  unfolding has
  has-none i [] h = refl
  has-none i (c ∷ m) h = absurd (omega arith)

  pub complete_if_done-IsSound :
      (t : Transfer) → IsSound profile t → IsSound profile (complete_if_done t).0
  unfolding complete_if_done
  complete_if_done-IsSound t v =
      let Holds : Transfer × List Event → Type 0 = λ x. IsSound profile x.0 in
      if_known Holds t.is_cancelled (λ _. v)
        (λ live.
          if_known Holds
            (ltb t.next_index t.total_chunks
              || ltb 0 (length t.inflight)
              || ltb (length t.acked) t.total_chunks)
            (λ _. v)
            (λ h. record {
              bounded = v.bounded;
              covered = v.covered;
              window = v.window;
              done = λ _ i l.
                  let there = v.covered live i (ground (arith, h)) in
                  let nothing = has-none i t.inflight (ground (arith, h)) in
                  ground (arith, there, nothing);
            }))

  module _ (gp : Bool) where
    next-CanKeep :
        (t : Transfer)
        → IsSound profile t
        → has_room profile gp t ≡ true
        → CanKeep profile t (t.next_index + 1) t.next_index
    unfolding has_room
    next-CanKeep t v h = record {
      in_total = ground (arith, h);
      near = λ j l n. omega (arith, n);
      room = λ _ _. ground (arith, h);
    }

    pub fill-IsSound :
        (n : ℕ) (t : Transfer) → IsSound profile t → IsSound profile (fill profile gp n t).0
    unfolding fill
    fill-IsSound zero t v = v
    fill-IsSound (suc n) t v =
        let Holds : Transfer × List Event → Type 0 = λ x. IsSound profile x.0 in
        if_known Holds (has_room profile gp t)
          (λ h. fill-IsSound n _ (
            send_chunk-IsSound profile gp t (t.next_index + 1) t.next_index 1 v
              (next-CanKeep t v h)))
          (λ _. v)

    pub pump-IsSound : (t : Transfer) → IsSound profile t → IsSound profile (pump profile gp t).0
    unfolding pump
    pump-IsSound t v =
        let Holds : Transfer × List Event → Type 0 = λ x. IsSound profile x.0 in
        if_either Holds (t.pumping || not (may_pump profile gp t)) v (
          complete_if_done-IsSound _ (
            fill-IsSound _ _
              (told-IsSound t t.status t.accepted t.is_paused true t.reason v (λ e. e))))

    resume_chunk-IsSound :
        (t : Transfer) (i : ℕ) (o : Option InflightChunk)
        → IsSound profile t
        → get i t.inflight ≡ o
        → IsSound profile (resume_chunk profile gp t i o).0
    unfolding resume_chunk
    resume_chunk-IsSound t i none v e = v
    resume_chunk-IsSound t i (some c) v e =
        let Holds : Transfer × List Event → Type 0 = λ x. IsSound profile x.0 in
        if_either Holds (is_held c.state c.timer)
          (send_chunk-IsSound profile gp t t.next_index i (c.attempts + 1) v
            (held-CanKeep profile t i c v e))
          v

    resume_chunks-IsSound :
        (is : List ℕ) (t : Transfer)
        → IsSound profile t
        → IsSound profile (resume_chunks profile gp is t).0
    unfolding resume_chunks
    resume_chunks-IsSound [] t v = v
    resume_chunks-IsSound (i ∷ is) t v =
        resume_chunks-IsSound is _ (resume_chunk-IsSound t i (get i t.inflight) v refl)

    pub resume_outstanding-IsSound :
        (t : Transfer) → IsSound profile t → IsSound profile (resume_outstanding profile gp t).0
    unfolding resume_outstanding
    resume_outstanding-IsSound t v =
        let Holds : Transfer × List Event → Type 0 = λ x. IsSound profile x.0 in
        if_either Holds (t.is_cancelled || t.is_paused || gp) v
          (pump-IsSound _ (resume_chunks-IsSound (keys t.inflight) t v))
