-- ===== src/Files/Receiver/Chunks.antt =====
-- `chunk`, `complete` and `completeNotice` of client/src/features/file/FileReceiver.ts.
use Prim.Native.String.{String}
use onlytwo.Base.{
  contains, ℕ, ◌+◌, ◌-◌, ◌*◌, Bool, true, false, not, ◌||◌, Option, none, some, List, [], ◌∷◌, ◌++◌,
  leb, ◌==◌, if◌then◌else◌, length, set, Bytes,
}
use onlytwo.Base.Dict.{find, same}
use onlytwo.Protocol.Messages.{FileChunk, file_ack, file_nack, file_cancel}
use onlytwo.Files.Receiver.{
  Tools, FileReceiver, ReceiveTransfer, ReceiverStatus, receiving, completed, failed, Event, sends,
  completes, emit, put, CompletedFile,
}

unfoldable pub is_receiving : ReceiverStatus → Bool
is_receiving receiving = true
is_receiving _ = false

is_completed : ReceiverStatus → Bool
is_completed completed = true
is_completed _ = false

-- A hole of the array, which `map` passes over and `Blob` reads as the text "undefined".
abbrev pub hole : Bytes
hole = 117 ∷ 110 ∷ 100 ∷ 101 ∷ 102 ∷ 105 ∷ 110 ∷ 101 ∷ 100 ∷ []

unfoldable pub blob_of : List (Option Bytes) → Bytes
blob_of [] = []
blob_of (none ∷ rest) = hole ++ blob_of rest
blob_of (some bytes ∷ rest) = bytes ++ blob_of rest

-- `bytes.byteLength === expectedBytes`
unfoldable pub has_expected_bytes : ReceiveTransfer → ℕ → Bytes → Bool
has_expected_bytes t index bytes =
    if index == t.total_chunks - 1
    then index * t.chunk_size + length bytes == t.size
    else length bytes == t.chunk_size

unfoldable pub stored : ReceiveTransfer → ℕ → Bytes → ReceiveTransfer
stored t index bytes = record t {
  chunks = set t.chunks index (some bytes);
  received = t.received ++ index ∷ [];
}

unfoldable pub finished : ReceiveTransfer → Bytes → ReceiveTransfer
finished t blob = record t { status = completed; reason = none; chunks = []; blob = some blob }

unfoldable pub broken : ReceiveTransfer → String → ReceiveTransfer
broken t reason = record t { status = failed; reason = some reason; chunks = []; received = [] }

abbrev pub fail_complete : FileReceiver → ReceiveTransfer → String → FileReceiver × List Event
fail_complete r t reason = (
  put r (broken t reason),
  emit (broken t reason) ∷ sends (file_cancel t.file_id "receiver validation failed") ∷ [],
)

abbrev pub completed_file : ReceiveTransfer → Bytes → CompletedFile
completed_file t blob = record {
  file_id = t.file_id;
  name = t.name;
  mime = t.mime;
  size = t.size;
  blob = blob;
}

module _ (tools : Tools) where
  -- `transfer.sha256 && digest !== transfer.sha256`, false
  unfoldable pub digest_matches : Option String → Bytes → Bool
  digest_matches none blob = true
  digest_matches (some sum) blob = same (tools.digest_blob blob) sum

  unfoldable pub complete : FileReceiver → ReceiveTransfer → FileReceiver × List Event
  complete r t =
      let blob = blob_of t.chunks in
      if not (length blob == t.size)
      then fail_complete r t "File size mismatch"
      else if not (digest_matches t.sha256 blob)
      then fail_complete r t "Integrity check failed"
      else (
        put r (finished t blob),
        emit (finished t blob) ∷ completes (completed_file t blob) ∷ [],
      )

  -- From `transfer.chunks[index] = bytes` on.
  unfoldable pub store : FileReceiver → ReceiveTransfer → ℕ → Bytes → FileReceiver × List Event
  store r t index bytes =
      let kept = stored t index bytes in
      let (done, events) = complete (put r kept) kept in
      let first = sends (file_ack t.file_id index) ∷ emit kept ∷ [] in
      if length kept.received == t.total_chunks
      then (done, first ++ events)
      else (put r kept, first)

  abbrev pub nack : FileReceiver → FileChunk → String → FileReceiver × List Event
  nack r m reason = (r, sends (file_nack m.file_id m.index reason) ∷ [])

  unfoldable pub decoded :
      FileReceiver → FileChunk → ReceiveTransfer → Option Bytes → FileReceiver × List Event
  decoded r m t none = nack r m "invalid chunk data"
  decoded r m t (some bytes) =
      if has_expected_bytes t m.index bytes
      then store r t m.index bytes
      else nack r m "wrong chunk size"

  unfoldable pub chunk_found :
      FileReceiver → FileChunk → Option ReceiveTransfer → FileReceiver × List Event
  chunk_found r m none = (r, [])
  chunk_found r m (some t) =
      if not (is_receiving t.status)
      then (r, [])
      else if not (m.total_chunks == t.total_chunks) || leb t.total_chunks m.index
      then nack r m "invalid chunk"
      else if contains t.received m.index
      then (r, sends (file_ack m.file_id m.index) ∷ [])
      else decoded r m t (tools.decode_chunk m.content)

  unfoldable pub chunk : FileReceiver → FileChunk → FileReceiver × List Event
  chunk r m = chunk_found r m (find m.file_id r.transfers)

notice_found : FileReceiver → Option ReceiveTransfer → FileReceiver × List Event
notice_found r none = (r, [])
notice_found r (some t) =
    if is_completed t.status || length t.received == t.total_chunks then (r, []) else (
      put r (record t { reason = some "Waiting for missing chunks" }),
      emit (record t { reason = some "Waiting for missing chunks" }) ∷ [],
    )

pub complete_notice : FileReceiver → String → FileReceiver × List Event
unfolding notice_found
complete_notice r file_id = notice_found r (find file_id r.transfers)
