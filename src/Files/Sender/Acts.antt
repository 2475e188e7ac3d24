-- ===== src/Files/Sender/Acts.antt =====
-- The invariant of a transfer, kept by what the methods of `FileSender` do to it.
use Prim.Native.String.{String}
use onlytwo.Base.{
  contains, contains-append, ℕ, ◌<◌, ◌≡◌, refl, sym, Bool, true, false, not, ◌||◌, Option, none,
  some, List, [], ◌==◌, leb, if◌then◌else◌, if_either, arith, ==_iff, Bool-cases, inl, inr, ap,
}
use onlytwo.Config.Profile.{TransportProfile}
use onlytwo.Files.Sender.{
  Transfer, completed, Event, InflightChunk, add, sending, paused, offered, is_over,
}
use onlytwo.Files.Sender.Inflight.{get, has, delete, has-delete, length-delete}
use onlytwo.Files.Sender.Chunks.{fail}
use onlytwo.Files.Sender.Pump.{pumped, is_sending}
use onlytwo.Files.Sender.Window.{IsSound, schedule_retry-IsSound, held-CanKeep}
use onlytwo.Files.Sender.Kept.{told-IsSound, hold-IsSound, pump-IsSound, resume_outstanding-IsSound}
use onlytwo.Files.Sender.Operations.{
  Act, start_act, offer_sent_act, pause_act, cancel_act, accept_act, acked_transfer, ack_found,
  ack_act, nack_found, nack_act, resume_act, global_pause_act, global_resume_act, is_queued,
  is_paused_status,
}

abbrev pub IsKeeping : TransportProfile → Act → Type 0
IsKeeping profile act = (t : Transfer) → IsSound profile t → IsSound profile (act t).0

contains-add : (xs : List ℕ) (n i : ℕ) → contains (add xs n) i ≡ (i == n || contains xs i)
unfolding add
contains-add xs n i =
    let e = contains-append xs n i in
    elim (Bool-cases (i == n)) [
      | inl here ↦
          let there = ap (contains xs) ((==_iff i n).0 here) in
          let turned = (==_iff n i).1 (sym ((==_iff i n).0 here)) in
          ground (arith, e, here, there, turned)
      | inr other ↦ ground (arith, e, other)
    ]

module _ (profile : TransportProfile) where
  pub start-IsKeeping : IsKeeping profile start_act
  unfolding start_act
  start-IsKeeping t v =
      if_either (λ (x : Transfer × List Event). IsSound profile x.0)
        (t.is_cancelled || not (is_queued t.status)) v
        (told-IsSound profile t offered t.accepted false t.pumping _ v (λ e. absurd (cc)))

  pub offer_sent-IsKeeping : (ok : Bool) → IsKeeping profile (offer_sent_act ok)
  unfolding offer_sent_act fail
  offer_sent-IsKeeping true t v = v
  offer_sent-IsKeeping false t v = record {
    bounded = v.bounded;
    covered = λ live. absurd (cc);
    window = omega arith;
    done = λ e. absurd (cc);
  }

  pub pause-IsKeeping : (reason : String) → IsKeeping profile (pause_act reason)
  unfolding pause_act
  pause-IsKeeping reason t v =
      if_either (λ (x : Transfer × List Event). IsSound profile x.0) (is_over t.status) v
        (hold-IsSound profile _
          (told-IsSound profile t paused t.accepted true t.pumping _ v (λ e. absurd (cc))))

  pub cancel-IsKeeping :
      (reason : String) (notify : Bool) → IsKeeping profile (cancel_act reason notify)
  unfolding cancel_act
  cancel-IsKeeping reason notify t v = record {
    bounded = v.bounded;
    covered = λ live. absurd (cc);
    window = omega arith;
    done = λ e. absurd (cc);
  }

  acked-IsSound :
      (index : ℕ) (t : Transfer) → IsSound profile t → IsSound profile (acked_transfer t index)
  unfolding acked_transfer
  acked-IsSound index t v = record {
    bounded = v.bounded;
    covered = covered;
    window =
        let fewer = length-delete index t.inflight in let w = v.window in omega (arith, fewer, w);
    done = λ e i l.
        let old = v.done e i l in
        let new = contains-add t.acked index i in ground (arith, old, new);
  }
    where
      covered :
          t.is_cancelled ≡ false
          → (i : ℕ) → i < t.next_index
          → (contains (add t.acked index) i || has i (delete index t.inflight)) ≡ true
      covered live i l =
          let old = v.covered live i l in
          let new = contains-add t.acked index i in
          elim (Bool-cases (i == index)) [
            | inl same ↦ ground (arith, new, same)
            | inr other ↦
                let rest = has-delete index i t.inflight (λ s. ground (arith, s, other)) in
                ground (arith, new, old, other, rest)
          ]

  module _ (gp : Bool) where
    pub accept-IsKeeping : IsKeeping profile (accept_act profile gp)
    unfolding accept_act
    accept-IsKeeping t v =
        if_either (λ (x : Transfer × List Event). IsSound profile x.0) t.is_cancelled v
          (pump-IsSound profile gp _ (
            told-IsSound profile t (if gp then paused else sending) true gp t.pumping _ v
              (λ e. absurd (moving gp e))))
      where
        moving : (gp : Bool) → (if gp then paused else sending) ≡ completed → ⊥
        moving true e = cc
        moving false e = cc

    pub ack-IsKeeping : (index : ℕ) → IsKeeping profile (ack_act profile gp index)
    unfolding ack_act ack_found
    ack-IsKeeping index t v =
        if_either (λ (x : Transfer × List Event). IsSound profile x.0)
          (t.is_cancelled || leb t.total_chunks index) v (found (get index t.inflight))
      where
        found : (o : Option InflightChunk) → IsSound profile (ack_found profile gp index t o).0
        found none = v
        found (some c) = pump-IsSound profile gp _ (acked-IsSound index t v)

    pub nack-IsKeeping :
        (index : ℕ) (reason : String) → IsKeeping profile (nack_act profile gp index reason)
    unfolding nack_act nack_found
    nack-IsKeeping index reason t v =
        if_either (λ (x : Transfer × List Event). IsSound profile x.0)
          (t.is_cancelled || leb t.total_chunks index) v (found (get index t.inflight) refl)
      where
        found :
            (o : Option InflightChunk)
            → get index t.inflight ≡ o
            → IsSound profile (nack_found profile gp index reason t o).0
        found none e = v
        found (some c) e =
            schedule_retry-IsSound profile gp t index _ _ v (held-CanKeep profile t index c v e)

    pub resume-IsKeeping : IsKeeping profile (resume_act profile gp)
    unfolding resume_act
    resume-IsKeeping t v =
        if_either (λ (x : Transfer × List Event). IsSound profile x.0)
          (not (is_paused_status t.status)) v
          (resume_outstanding-IsSound profile gp _ (
            told-IsSound profile t (if t.accepted then sending else offered) t.accepted false
              t.pumping _ v (λ e. absurd (moving t.accepted e))))
      where
        moving : (b : Bool) → (if b then sending else offered) ≡ completed → ⊥
        moving true e = cc
        moving false e = cc

  pub global_pause-IsKeeping : (reason : String) → IsKeeping profile (global_pause_act reason)
  unfolding global_pause_act
  global_pause-IsKeeping reason t v =
      if_either (λ (x : Transfer × List Event). IsSound profile x.0)
        (not (is_sending t.status || is_paused_status t.status)) v
        (hold-IsSound profile _
          (told-IsSound profile t paused t.accepted true t.pumping _ v (λ e. absurd (cc))))

  pub global_resume-IsKeeping : IsKeeping profile (global_resume_act profile)
  unfolding global_resume_act
  global_resume-IsKeeping t v =
      if_either (λ (x : Transfer × List Event). IsSound profile x.0)
        (not (is_sending t.status || is_paused_status t.status)) v
        (resume_outstanding-IsSound profile false _
          (told-IsSound profile t sending t.accepted false t.pumping _ v (λ e. absurd (cc))))

  pub pumped-IsKeeping : IsKeeping profile (λ t. (pumped t, []))
  unfolding pumped
  pumped-IsKeeping t v =
      told-IsSound profile t t.status t.accepted t.is_paused false t.reason v (λ e. e)
