-- ===== src/Files/Sender.antt =====
-- client/src/features/file/FileSender.ts: the state of `FileSender`.
-- A method that awaits is cut there: `reads` starts the reading of a slice, `chunk_message` is what
-- is sent once it is read, `chunk_sent` goes on with the answer. The texts with a chunk's number are
-- `Note`s.
pub mod Inflight
pub mod Chunks
pub mod Pump
pub mod Operations
pub mod Calls
pub mod Window
pub mod Kept
pub mod Acts
pub mod Reachable
pub mod Full
pub mod Tests
use Prim.Native.String.{String}
use onlytwo.Base.{
  contains, ℕ, ◌*◌, Bool, true, false, Option, none, some, List, [], ◌∷◌, ◌++◌, length, Bytes, min,
  if◌then◌else◌,
}
use onlytwo.Base.Dict.{Dict, same}
use onlytwo.Config.Lanes.{Lane}
use onlytwo.Config.Profile.{TransportProfile}
use onlytwo.Protocol.Messages.{CoreAppMessage}

pub data SenderStatus : Type 0 where
  queued offered sending paused completed cancelled failed : SenderStatus

pub data ChunkState : Type 0 where
  chunk_sending waiting_ack retry_wait : ChunkState

-- What runs when a timer fires, with the attempts that it was set with: `scheduleRetry` or
-- `sendChunk`.
pub data Timer : Type 0 where
  ack_timeout : ℕ → Timer
  resend : ℕ → Timer

pub data Note : Type 0 where
  words : String → Note
  retrying : ℕ → Note
  gave_up : ℕ → Note

pub record InflightChunk : Type 0 where
  pub attempts : ℕ
  pub state : ChunkState
  pub timer : Option Timer

-- The `File` of the browser.
pub record SourceFile : Type 0 where
  pub name : String
  pub mime : String
  pub content : Bytes

pub record Transfer : Type 0 where
  pub file : SourceFile
  pub file_id : String
  pub name : String
  pub mime : String
  pub size : ℕ
  pub chunk_size : ℕ
  pub total_chunks : ℕ
  pub sha256 : Option String
  pub status : SenderStatus
  pub accepted : Bool
  pub is_paused : Bool
  pub is_cancelled : Bool
  pub pumping : Bool
  pub next_index : ℕ
  pub acked : List ℕ
  pub inflight : List (ℕ × InflightChunk)
  pub reason : Option Note

-- `SenderSnapshot`, less the quotient `progress`; `totalBytes` is `size`.
pub record SenderSnapshot : Type 0 where
  pub file_id : String
  pub name : String
  pub size : ℕ
  pub sent_bytes : ℕ
  pub status : SenderStatus
  pub reason : Option Note

-- The calls out: the callbacks and the reading of a chunk of the file.
pub data Event : Type 0 where
  sends : CoreAppMessage → Event
  updates : SenderSnapshot → Event
  reads : ℕ → ℕ → Event

pub record FileSender : Type 0 where
  pub transfers : Dict Transfer
  pub global_paused : Bool
  pub profile : TransportProfile

pub emit : Transfer → Event
emit t = updates (record {
  file_id = t.file_id;
  name = t.name;
  size = t.size;
  sent_bytes = min t.size (length t.acked * t.chunk_size);
  status = t.status;
  reason = t.reason;
})

-- `acked.add(index)`
unfoldable pub add : List ℕ → ℕ → List ℕ
unfolding contains
add xs n = if contains xs n then xs else xs ++ n ∷ []

-- `["completed", "cancelled", "failed"].includes(status)`
unfoldable pub is_over : SenderStatus → Bool
is_over completed = true
is_over cancelled = true
is_over failed = true
is_over _ = false
