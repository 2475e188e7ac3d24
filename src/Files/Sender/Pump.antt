-- ===== src/Files/Sender/Pump.antt =====
-- `pump`, `completeIfDone`, `resumeOutstanding` and `holdOutstanding` of
-- client/src/features/file/FileSender.ts. `pumped` is the end of `pump`, after its `await`.
use onlytwo.Base.{
  ℕ, zero, suc, ◌+◌, ◌-◌, Bool, true, false, not, ◌&&◌, ◌||◌, Option, none, some, List, [], ◌∷◌,
  ◌++◌, ltb, if◌then◌else◌, length,
}
use onlytwo.Config.Profile.{TransportProfile}
use onlytwo.Files.Sender.{
  Transfer, Event, sends, emit, ChunkState, retry_wait, Timer, InflightChunk, SenderStatus, sending,
  completed,
}
use onlytwo.Files.Sender.Inflight.{get, keys, hold}
use onlytwo.Files.Sender.Chunks.{send_chunk}
use onlytwo.Protocol.Messages.{file_complete}

unfoldable pub is_sending : SenderStatus → Bool
is_sending sending = true
is_sending _ = false

unfoldable pub hold_outstanding : Transfer → Transfer
hold_outstanding t = record t { inflight = hold t.inflight }

unfoldable pub complete_if_done : Transfer → Transfer × List Event
complete_if_done t =
    let done = record t { status = completed; reason = none } in
    if t.is_cancelled
    then (t, [])
    else if ltb t.next_index t.total_chunks
        || ltb 0 (length t.inflight)
        || ltb (length t.acked) t.total_chunks
    then (t, [])
    else (done, emit done ∷ sends (file_complete t.file_id t.sha256) ∷ [])

unfoldable pub pumped : Transfer → Transfer
pumped t = record t { pumping = false }

unfoldable pub is_held : ChunkState → Option Timer → Bool
is_held retry_wait none = true
is_held _ _ = false

module _ (profile : TransportProfile) (global_paused : Bool) where
  -- The condition of the loop.
  unfoldable pub has_room : Transfer → Bool
  has_room t =
      not t.is_cancelled
      && not t.is_paused
      && not global_paused
      && ltb (length t.inflight) profile.files.window_chunks
      && ltb t.next_index t.total_chunks

  -- The loop, for at most `n` rounds.
  unfoldable pub fill : ℕ → Transfer → Transfer × List Event
  fill zero t = (t, [])
  fill (suc n) t =
      let (sent, first) =
        send_chunk profile global_paused (record t { next_index = t.next_index + 1 }) t.next_index
          1 in
      let (last, rest) = fill n sent in if has_room t then (last, first ++ rest) else (t, [])

  unfoldable pub may_pump : Transfer → Bool
  may_pump t =
      not t.is_cancelled
      && t.accepted
      && not t.is_paused
      && not global_paused
      && is_sending t.status

  -- To the `await`; a round for each chunk that is left is enough.
  unfoldable pub pump : Transfer → Transfer × List Event
  pump t =
      let (filled, first) = fill (t.total_chunks - t.next_index) (record t { pumping = true }) in
      let (last, rest) = complete_if_done filled in
      if t.pumping || not (may_pump t) then (t, []) else (last, first ++ rest)

  unfoldable pub resume_chunk : Transfer → ℕ → Option InflightChunk → Transfer × List Event
  resume_chunk t index none = (t, [])
  resume_chunk t index (some c) =
      if is_held c.state c.timer
      then send_chunk profile global_paused t index (c.attempts + 1)
      else (t, [])

  -- The loop over the map: no chunk enters it on the way.
  unfoldable pub resume_chunks : List ℕ → Transfer → Transfer × List Event
  resume_chunks [] t = (t, [])
  resume_chunks (index ∷ rest) t =
      let (one, first) = resume_chunk t index (get index t.inflight) in
      let (last, more) = resume_chunks rest one in (last, first ++ more)

  unfoldable pub resume_outstanding : Transfer → Transfer × List Event
  resume_outstanding t =
      let (resumed, first) = resume_chunks (keys t.inflight) t in
      let (last, rest) = pump resumed in
      if t.is_cancelled || t.is_paused || global_paused then (t, []) else (last, first ++ rest)
