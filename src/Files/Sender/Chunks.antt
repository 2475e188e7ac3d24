-- ===== src/Files/Sender/Chunks.antt =====
-- `sendChunk`, `scheduleRetry`, `fail` and `failAndNotify` of client/src/features/file/FileSender.ts.
use Prim.Native.String.{String}
use onlytwo.Base.{
  contains, ℕ, ◌+◌, ◌-◌, ◌*◌, ◌^◌, Bool, true, ◌||◌, Option, none, some, List, [], ◌∷◌, ◌++◌, ltb,
  if◌then◌else◌, Bytes, min, take, drop,
}
use onlytwo.Config.Profile.{TransportProfile}
use onlytwo.Files.Sender.{
  Transfer, Event, sends, reads, emit, ChunkState, chunk_sending, waiting_ack, retry_wait, Timer,
  ack_timeout, resend, Note, words, retrying, gave_up, failed,
}
use onlytwo.Files.Sender.Inflight.{put}
use onlytwo.Protocol.Messages.{FileChunk, file_cancel}

-- `transfer.inflight.set(index, { attempts, state, timer })`
unfoldable pub keep : Transfer → ℕ → ℕ → ChunkState → Option Timer → Transfer
keep t index attempts state timer = record t {
  inflight = put index (record { attempts = attempts; state = state; timer = timer }) t.inflight;
}

unfoldable pub fail : Transfer → Note → Transfer × List Event
fail t reason =
    let over = record t {
      status = failed;
      reason = some reason;
      is_cancelled = true;
      inflight = [];
    } in
    (over, emit over ∷ [])

unfoldable pub fail_and_notify : Transfer → Note → Transfer × List Event
unfolding fail
fail_and_notify t reason =
    let (over, events) = fail t reason in
    (over, events ++ sends (file_cancel t.file_id "transfer failed") ∷ [])

-- `400 * 2 ** Math.min(4, Math.max(0, nextAttempts - 2))`, at most 5000.
pub retry_delay_ms : ℕ → ℕ
retry_delay_ms next_attempts = min 5000 (400 * 2 ^ min 4 (next_attempts - 2))

-- What happens to a chunk once its message is there: the answer of `sendApp`, or what it threw.
pub data Outcome : Type 0 where
  taken refused : Outcome
  threw : String → Outcome

-- The message of `sendChunk`, with `encodeChunk` as a parameter.
unfoldable pub chunk_message : (Bytes → String) → Transfer → ℕ → FileChunk
chunk_message encode_chunk t index =
    let start = index * t.chunk_size in
    record {
      file_id = t.file_id;
      index = index;
      total_chunks = t.total_chunks;
      content =
          encode_chunk
            (take (min (start + t.chunk_size) t.size - start) (drop start t.file.content));
    }

-- With the profile and `globalPaused` of the sender.
module _ (profile : TransportProfile) (global_paused : Bool) where
  -- To the reading of the slice.
  unfoldable pub send_chunk : Transfer → ℕ → ℕ → Transfer × List Event
  send_chunk t index attempts =
      let begun = record (keep t index attempts chunk_sending none) {
        reason = if ltb 1 attempts then some (retrying (index + 1)) else none;
      } in
      if t.is_cancelled || contains t.acked index
      then (t, [])
      else if t.is_paused || global_paused
      then (keep t index attempts retry_wait none, [])
      else if ltb (profile.files.max_retries + 1) attempts
      then fail_and_notify t (gave_up (index + 1))
      else (begun, emit begun ∷ reads index attempts ∷ [])

  -- The timer runs out after `retry_delay_ms`.
  unfoldable pub schedule_retry : Transfer → ℕ → ℕ → Note → Transfer × List Event
  schedule_retry t index next_attempts reason =
      let waiting =
        record (keep t index (next_attempts - 1) retry_wait
          (if t.is_paused || global_paused then none else some (resend next_attempts))) {
            reason = some reason;
          } in
      if t.is_cancelled || contains t.acked index
      then (t, [])
      else if ltb (profile.files.max_retries + 1) next_attempts
      then fail_and_notify t (gave_up (index + 1))
      else (waiting, emit waiting ∷ [])

  -- The rest of `sendChunk`.
  unfoldable pub chunk_sent : Transfer → ℕ → ℕ → Outcome → Transfer × List Event
  chunk_sent t index attempts refused =
      schedule_retry t index (attempts + 1) (words "Retrying after browser backpressure")
  chunk_sent t index attempts (threw message) =
      schedule_retry t index (attempts + 1) (words message)
  chunk_sent t index attempts taken =
      let waiting = record (keep t index attempts waiting_ack (some (ack_timeout attempts))) {
        reason = none;
      } in
      if t.is_cancelled || contains t.acked index then (t, []) else (waiting, emit waiting ∷ [])

  unfoldable pub fire : Transfer → ℕ → Timer → Transfer × List Event
  fire t index (ack_timeout attempts) =
      schedule_retry t index (attempts + 1) (words "Retrying after missing ACK")
  fire t index (resend attempts) = send_chunk t index attempts
