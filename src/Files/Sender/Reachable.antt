-- ===== src/Files/Sender/Reachable.antt =====
-- Every sequence of calls, answers and timers of `FileSender`.
use Prim.Native.String.{String}
use onlytwo.Base.{
  if◌then◌else◌, ℕ, ◌≤◌, ◌<◌, ◌≡◌, refl, Bool, true, false, Option, none, some, List, [], ◌∷◌,
  if_either, length, All, contains, arith,
}
use onlytwo.Base.Dict.{Dict, find, insert, values, All-find, All-insert, All-erase}
use onlytwo.Config.Profile.{TransportProfile}
use onlytwo.Files.Sender.{
  SourceFile, FileSender, Transfer, completed, Timer, is_over, Event, queued, offered,
}
use onlytwo.Files.Sender.Chunks.{Outcome, fire, chunk_sent}
use onlytwo.Files.Sender.Window.{IsSound, chunk_sent-IsSound, fire-IsSound}
use onlytwo.Files.Sender.Operations.{Act, at, at_found, each, global_pause_act, global_resume_act}
use onlytwo.Files.Sender.Calls.{
  Call, call, offers, offer_answered, starts_queued, accepts, resumes, removes, pump_ends, acks,
  nacks, pauses, cancels, pauses_all, resets, offer, new_transfer, remove_found, set_global_paused,
  validate_outbound_file,
}
use onlytwo.Files.Sender.Acts.{
  IsKeeping, start-IsKeeping, offer_sent-IsKeeping, pause-IsKeeping, cancel-IsKeeping,
  accept-IsKeeping, ack-IsKeeping, nack-IsKeeping, resume-IsKeeping, global_pause-IsKeeping,
  global_resume-IsKeeping, pumped-IsKeeping,
}

abbrev pub empty_sender : TransportProfile → FileSender
empty_sender profile = record { transfers = []; global_paused = false; profile = profile }

module _ (validate_filename : String → String) where
  -- A timer, or the answer to a chunk, comes for a chunk that was taken. A timer that was replaced
  -- without being cleared may come too, so every timer of such a chunk may.
  pub data IsReachable : FileSender → Type 0 where
    start : (profile : TransportProfile) → IsReachable (empty_sender profile)
    calls : (s : FileSender) (c : Call) → IsReachable s → IsReachable (call validate_filename s c).0
    fires :
        (s : FileSender) (file_id : String) (t : Transfer) (index : ℕ) (timer : Timer)
        → find file_id s.transfers ≡ some t
        → index < t.next_index
        → IsReachable s
        → IsReachable (record s {
          transfers = insert file_id (fire s.profile s.global_paused t index timer).0 s.transfers;
        })
    answers :
        (s : FileSender) (file_id : String) (t : Transfer) (index attempts : ℕ) (outcome : Outcome)
        → find file_id s.transfers ≡ some t
        → index < t.next_index
        → IsReachable s
        → IsReachable (record s {
          transfers =
              insert file_id
                (chunk_sent s.profile s.global_paused t index attempts outcome).0
                s.transfers;
        })

IsSafe : FileSender → Type 0
IsSafe s = All (IsSound s.profile) (values s.transfers)

at-IsSafe :
    (s : FileSender) (file_id : String) (act : Act)
    → IsSafe s
    → IsKeeping s.profile act
    → IsSafe (at s file_id act).0
unfolding IsSafe at at_found
at-IsSafe s file_id act v k = found (find file_id s.transfers) refl
  where
    found :
        (o : Option Transfer) → find file_id s.transfers ≡ o → IsSafe (at_found s file_id act o).0
    found none e = v
    found (some t) e =
        All-insert (IsSound s.profile) file_id (act t).0 s.transfers
          (k t (All-find (IsSound s.profile) file_id t s.transfers v e)) v

each-All :
    (profile : TransportProfile) (act : Act) (d : Dict Transfer)
    → IsKeeping profile act
    → All (IsSound profile) (values d)
    → All (IsSound profile) (values (each act d).0)
unfolding each values
each-All profile act [] k h = h
each-All profile act ((_, t) ∷ d) k h = (k t h.0, each-All profile act d k h.1)

removed-IsSafe :
    (s : FileSender) (file_id : String) (o : Option Transfer)
    → IsSafe s
    → IsSafe (remove_found s file_id o)
unfolding IsSafe remove_found
removed-IsSafe s file_id none v = v
removed-IsSafe s file_id (some t) v =
    if_either IsSafe (is_over t.status) (All-erase (IsSound s.profile) file_id s.transfers v) v

set_global_paused-IsSafe :
    (s : FileSender) (is_paused : Bool) (reason : String)
    → IsSafe s
    → IsSafe (set_global_paused s is_paused reason).0
unfolding IsSafe set_global_paused
set_global_paused-IsSafe s true reason v =
    each-All s.profile (global_pause_act reason) s.transfers
      (global_pause-IsKeeping s.profile reason) v
set_global_paused-IsSafe s false reason v =
    each-All s.profile (global_resume_act s.profile) s.transfers (global_resume-IsKeeping s.profile)
      v

module _ (validate_filename : String → String) where
  new-IsSound :
      (profile : TransportProfile) (file_id : String) (digest : Option String) (file : SourceFile)
      (is_queued : Bool)
      → IsSound profile (new_transfer validate_filename profile file_id digest file is_queued)
  unfolding new_transfer
  new-IsSound profile file_id digest file is_queued = record {
    bounded = omega arith;
    covered = λ _ i l. absurd (omega arith);
    window = omega arith;
    done = λ e. absurd (not_done is_queued e);
  }
    where
      not_done : (b : Bool) → (if b then queued else offered) ≡ completed → ⊥
      not_done true e = cc
      not_done false e = cc

  call-IsSafe : (s : FileSender) (c : Call) → IsSafe s → IsSafe (call validate_filename s c).0
  unfolding call IsSafe offer values
  call-IsSafe s (offers file_id digest file is_queued) v =
      if_either (λ (x : FileSender × List Event). IsSafe x.0)
        (validate_outbound_file s.profile file)
        (All-insert (IsSound s.profile) file_id _ s.transfers
          (new-IsSound s.profile file_id digest file is_queued) v)
        v
  call-IsSafe s (offer_answered file_id ok) v =
      at-IsSafe s file_id _ v (offer_sent-IsKeeping s.profile ok)
  call-IsSafe s (starts_queued file_id) v = at-IsSafe s file_id _ v (start-IsKeeping s.profile)
  call-IsSafe s (accepts file_id) v =
      at-IsSafe s file_id _ v (accept-IsKeeping s.profile s.global_paused)
  call-IsSafe s (resumes file_id) v =
      at-IsSafe s file_id _ v (resume-IsKeeping s.profile s.global_paused)
  call-IsSafe s (removes file_id) v = removed-IsSafe s file_id (find file_id s.transfers) v
  call-IsSafe s (pump_ends file_id) v = at-IsSafe s file_id _ v (pumped-IsKeeping s.profile)
  call-IsSafe s (acks file_id index) v =
      at-IsSafe s file_id _ v (ack-IsKeeping s.profile s.global_paused index)
  call-IsSafe s (nacks file_id index reason) v =
      at-IsSafe s file_id _ v (nack-IsKeeping s.profile s.global_paused index reason)
  call-IsSafe s (pauses file_id reason) v =
      at-IsSafe s file_id _ v (pause-IsKeeping s.profile reason)
  call-IsSafe s (cancels file_id reason notify) v =
      at-IsSafe s file_id _ v (cancel-IsKeeping s.profile reason notify)
  call-IsSafe s (pauses_all is_paused reason) v = set_global_paused-IsSafe s is_paused reason v
  call-IsSafe s resets v = tt

  reachable-IsSafe : (s : FileSender) → IsReachable validate_filename s → IsSafe s
  unfolding IsSafe values
  reachable-IsSafe _ (start profile) = tt
  reachable-IsSafe _ (calls s c r) = call-IsSafe s c (reachable-IsSafe s r)
  reachable-IsSafe _ (fires s file_id t index timer e l r) =
      let v = reachable-IsSafe s r in
      All-insert (IsSound s.profile) file_id _ s.transfers
        (fire-IsSound s.profile s.global_paused t index timer
          (All-find (IsSound s.profile) file_id t s.transfers v e) l)
        v
  reachable-IsSafe _ (answers s file_id t index attempts outcome e l r) =
      let v = reachable-IsSafe s r in
      All-insert (IsSound s.profile) file_id _ s.transfers
        (chunk_sent-IsSound s.profile s.global_paused t index attempts outcome
          (All-find (IsSound s.profile) file_id t s.transfers v e) l)
        v

-- In every sender that calls, answers and timers lead to, at most the window of chunks of a transfer is
-- in flight, and each chunk of a transfer that stands as completed was acknowledged.
pub window_kept :
    (validate_filename : String → String) (s : FileSender) (file_id : String) (t : Transfer)
    → IsReachable validate_filename s
    → find file_id s.transfers ≡ some t
    → (length t.inflight ≤ s.profile.files.window_chunks)
      × (t.status ≡ completed → (i : ℕ) → i < t.total_chunks → contains t.acked i ≡ true)
unfolding IsSafe
window_kept validate_filename s file_id t r e =
    let v =
      All-find (IsSound s.profile) file_id t s.transfers (reachable-IsSafe validate_filename s r)
        e in
    (v.window, v.done)
