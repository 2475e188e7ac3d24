-- ===== src/Files/Sender/Calls.antt =====
-- `offer`, `remove`, `reset`, `setGlobalPaused`, `activeCount` and the list of all calls of
-- `FileSender`, client/src/features/file/FileSender.ts.
use Prim.Native.String.{String}
use onlytwo.Base.{
  ℕ, ◌+◌, Bool, false, Option, none, some, List, [], ◌∷◌, ltb, leb, if◌then◌else◌, length, ◌&&◌,
}
use onlytwo.Base.Dict.{Dict, find, insert, erase, same}
use onlytwo.Config.Profile.{TransportProfile}
use onlytwo.Protocol.Json.{utf16_length}
use onlytwo.Protocol.Messages.{file_offer}
use onlytwo.Files.Receiver.{ceil_div}
use onlytwo.Files.Sender.{
  SourceFile, FileSender, Transfer, queued, offered, Event, sends, emit, is_over, words,
}
use onlytwo.Files.Sender.Pump.{pumped}
use onlytwo.Files.Sender.Operations.{
  Act, at, offer_message, start_act, offer_sent_act, pause_act, cancel_act, accept_act, ack_act,
  nack_act, resume_act, global_pause_act, global_resume_act, each,
}

unfoldable pub validate_outbound_file : TransportProfile → SourceFile → Bool
validate_outbound_file profile file =
    ltb 0 (length file.content)
    && leb (length file.content) profile.files.max_file_bytes
    && leb (utf16_length file.name) 180

unfoldable pub or_octet_stream : String → String
or_octet_stream mime = if same mime "" then "application/octet-stream" else mime

-- With `validateFilename`, the id and the digest.
unfoldable pub new_transfer :
    (String → String) → TransportProfile → String → Option String → SourceFile → Bool → Transfer
new_transfer validate_filename profile file_id digest file is_queued = record {
  file = file;
  file_id = file_id;
  name = validate_filename file.name;
  mime = or_octet_stream file.mime;
  size = length file.content;
  chunk_size = profile.files.chunk_bytes;
  total_chunks = ceil_div (length file.content) profile.files.chunk_bytes;
  sha256 = if leb (length file.content) profile.files.small_bytes then digest else none;
  status = if is_queued then queued else offered;
  accepted = false;
  is_paused = is_queued;
  is_cancelled = false;
  pumping = false;
  next_index = 0;
  acked = [];
  inflight = [];
  reason =
      some
        (words (if is_queued then "Waiting for earlier work" else "Waiting for peer acceptance"));
}

-- The file is refused by an exception, after which nothing has changed.
unfoldable pub offer :
    (String → String)
    → FileSender
    → String
    → Option String
    → SourceFile
    → Bool
    → FileSender × List Event
offer validate_filename s file_id digest file is_queued =
    let t = new_transfer validate_filename s.profile file_id digest file is_queued in
    if validate_outbound_file s.profile file
    then (
      record s { transfers = insert file_id t s.transfers },
      emit t ∷ (if is_queued then [] else sends (file_offer (offer_message t)) ∷ []),
    )
    else (s, [])

unfoldable pub remove_found : FileSender → String → Option Transfer → FileSender
remove_found s file_id none = s
remove_found s file_id (some t) =
    if is_over t.status then record s { transfers = erase file_id s.transfers } else s

unfoldable pub set_global_paused : FileSender → Bool → String → FileSender × List Event
set_global_paused s is_paused reason =
    let act : Act = if is_paused then global_pause_act reason else global_resume_act s.profile in
    let (after, events) = each act s.transfers in
    (record s { transfers = after; global_paused = is_paused }, events)

pub set_profile : FileSender → TransportProfile → FileSender
set_profile s profile = record s { profile = profile }

-- `activeCount`
pub active_count : Dict Transfer → ℕ
active_count [] = 0
active_count ((_, t) ∷ rest) = if is_over t.status then active_count rest else 1 + active_count rest

-- The calls of the methods, less `setProfile`, and what a promise comes back with.
pub data Call : Type 0 where
  offers : String → Option String → SourceFile → Bool → Call
  offer_answered : String → Bool → Call
  starts_queued accepts resumes removes pump_ends : String → Call
  acks : String → ℕ → Call
  nacks : String → ℕ → String → Call
  pauses : String → String → Call
  cancels : String → String → Bool → Call
  pauses_all : Bool → String → Call
  resets : Call

module _ (validate_filename : String → String) where
  unfoldable pub call : FileSender → Call → FileSender × List Event
  call s (offers file_id digest file is_queued) =
      offer validate_filename s file_id digest file is_queued
  call s (offer_answered file_id ok) = at s file_id (offer_sent_act ok)
  call s (starts_queued file_id) = at s file_id start_act
  call s (accepts file_id) = at s file_id (accept_act s.profile s.global_paused)
  call s (resumes file_id) = at s file_id (resume_act s.profile s.global_paused)
  call s (removes file_id) = (remove_found s file_id (find file_id s.transfers), [])
  call s (pump_ends file_id) = at s file_id (λ t. (pumped t, []))
  call s (acks file_id index) = at s file_id (ack_act s.profile s.global_paused index)
  call s (nacks file_id index reason) =
      at s file_id (nack_act s.profile s.global_paused index reason)
  call s (pauses file_id reason) = at s file_id (pause_act reason)
  call s (cancels file_id reason notify) = at s file_id (cancel_act reason notify)
  call s (pauses_all is_paused reason) = set_global_paused s is_paused reason
  call s resets = (record s { transfers = []; global_paused = false }, [])
