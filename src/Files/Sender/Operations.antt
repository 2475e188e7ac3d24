-- ===== src/Files/Sender/Operations.antt =====
-- The public methods of `FileSender`, client/src/features/file/FileSender.ts, and what its timers and
-- promises come back to. `offer` has the id that `makeId` draws and the digest, `none` if it throws,
-- as arguments; `offer_sent` goes on with the answer to the offer.
use Prim.Native.String.{String}
use onlytwo.Base.{
  ℕ, ◌+◌, Bool, true, false, not, ◌||◌, Option, none, some, List, [], ◌∷◌, ◌++◌, leb, if◌then◌else◌,
}
use onlytwo.Base.Dict.{Dict, find, insert}
use onlytwo.Config.Profile.{TransportProfile}
use onlytwo.Protocol.Messages.{FileOffer, file_offer, file_cancel}
use onlytwo.Files.Sender.{
  FileSender, Transfer, SenderStatus, queued, offered, sending, paused, cancelled, Event, sends,
  emit, add, is_over, InflightChunk, words,
}
use onlytwo.Files.Sender.Inflight.{get, delete}
use onlytwo.Files.Sender.Chunks.{fail, schedule_retry}
use onlytwo.Files.Sender.Pump.{is_sending, hold_outstanding, pump, resume_outstanding}

unfoldable pub is_queued : SenderStatus → Bool
is_queued queued = true
is_queued _ = false

unfoldable pub is_paused_status : SenderStatus → Bool
is_paused_status paused = true
is_paused_status _ = false

-- `this.transfers.get(fileId)` and a step of the transfer, which the map shares.
abbrev pub Act : Type 0
Act = Transfer → Transfer × List Event

unfoldable pub at_found : FileSender → String → Act → Option Transfer → FileSender × List Event
at_found s file_id act none = (s, [])
at_found s file_id act (some t) =
    let (after, events) = act t in
    (record s { transfers = insert file_id after s.transfers }, events)

unfoldable pub at : FileSender → String → Act → FileSender × List Event
unfolding at_found
at s file_id act = at_found s file_id act (find file_id s.transfers)

-- The message of `sendOffer`; a digest is never the empty text, which would be left out.
unfoldable pub offer_message : Transfer → FileOffer
offer_message t = record {
  file_id = t.file_id;
  name = t.name;
  mime = t.mime;
  size = t.size;
  chunk_size = t.chunk_size;
  total_chunks = t.total_chunks;
  sha256 = t.sha256;
}

unfoldable pub start_act : Act
start_act t =
    let started = record t {
      status = offered;
      is_paused = false;
      reason = some (words "Waiting for peer acceptance");
    } in
    if t.is_cancelled || not (is_queued t.status)
    then (t, [])
    else (started, emit started ∷ sends (file_offer (offer_message started)) ∷ [])

-- The rest of `sendOffer`.
unfoldable pub offer_sent_act : Bool → Act
offer_sent_act true t = (t, [])
offer_sent_act false t = fail t (words "Could not send file offer")

unfoldable pub pause_act : String → Act
pause_act reason t =
    let held =
      hold_outstanding
        (record t { is_paused = true; status = paused; reason = some (words reason) }) in
    if is_over t.status then (t, []) else (held, emit held ∷ [])

unfoldable pub cancel_act : String → Bool → Act
cancel_act reason notify t =
    let over = record t {
      is_cancelled = true;
      status = cancelled;
      reason = some (words reason);
      inflight = [];
    } in
    (over, emit over ∷ (if notify then sends (file_cancel t.file_id reason) ∷ [] else []))

unfoldable pub acked_transfer : Transfer → ℕ → Transfer
acked_transfer t index = record t {
  inflight = delete index t.inflight;
  acked = add t.acked index;
  reason = none;
}

module _ (profile : TransportProfile) (global_paused : Bool) where
  unfoldable pub accept_act : Act
  accept_act t =
      let accepted = record t {
        accepted = true;
        status = if global_paused then paused else sending;
        is_paused = global_paused;
        reason = if global_paused then some (words "Paused during voice") else none;
      } in
      let (last, rest) = pump profile global_paused accepted in
      if t.is_cancelled then (t, []) else (last, emit accepted ∷ rest)

  unfoldable pub ack_found : ℕ → Transfer → Option InflightChunk → Transfer × List Event
  ack_found index t none = (t, [])
  ack_found index t (some c) =
      let (last, rest) = pump profile global_paused (acked_transfer t index) in
      (last, emit (acked_transfer t index) ∷ rest)

  unfoldable pub ack_act : ℕ → Act
  ack_act index t =
      if t.is_cancelled || leb t.total_chunks index
      then (t, [])
      else ack_found index t (get index t.inflight)

  unfoldable pub nack_found : ℕ → String → Transfer → Option InflightChunk → Transfer × List Event
  nack_found index reason t none = (t, [])
  nack_found index reason t (some c) =
      schedule_retry profile global_paused t index (c.attempts + 1) (words reason)

  unfoldable pub nack_act : ℕ → String → Act
  nack_act index reason t =
      if t.is_cancelled || leb t.total_chunks index
      then (t, [])
      else nack_found index reason t (get index t.inflight)

  unfoldable pub resume_act : Act
  resume_act t =
      let resumed = record t {
        is_paused = false;
        status = if t.accepted then sending else offered;
        reason = if t.accepted then none else some (words "Waiting for peer acceptance");
      } in
      let (last, rest) = resume_outstanding profile global_paused resumed in
      if not (is_paused_status t.status) then (t, []) else (last, emit resumed ∷ rest)

-- A round of the loop of `setGlobalPaused`.
unfoldable pub global_pause_act : String → Act
global_pause_act reason t =
    let held =
      hold_outstanding
        (record t { is_paused = true; status = paused; reason = some (words reason) }) in
    if not (is_sending t.status || is_paused_status t.status)
    then (t, [])
    else (held, emit held ∷ [])

unfoldable pub global_resume_act : TransportProfile → Act
global_resume_act profile t =
    let resumed = record t { is_paused = false; status = sending; reason = none } in
    let (last, rest) = resume_outstanding profile false resumed in
    if not (is_sending t.status || is_paused_status t.status)
    then (t, [])
    else (last, emit resumed ∷ rest)

unfoldable pub each : Act → Dict Transfer → Dict Transfer × List Event
each act [] = ([], [])
each act ((k, t) ∷ d) =
    let (after, first) = act t in
    let (rest, more) = each act d in ((k, after) ∷ rest, first ++ more)
