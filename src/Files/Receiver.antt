-- ===== src/Files/Receiver.antt =====
-- client/src/features/file/FileReceiver.ts: `FileReceiver`. Each operation runs to its end before the
-- next, as the session awaits the inbound ones; the answers of `sendApp` matter to `accept` alone.
-- `Tools` has what is not modelled: `decodeChunk`, `digestBlob` and `validateFilename`.
-- The URL of a finished file is the content behind it.
pub mod Chunks
pub mod Copy
pub mod Whole
pub mod Start
pub mod Tests
pub mod Checked
use Prim.Native.String.{◌++◌ as str_append, String}
use text.Mathlib.Text
use onlytwo.Base.{
  ℕ, suc, zero, ◌+◌, ◌-◌, ◌*◌, ◌/◌, ◌≡◌, Bool, true, false, not, ◌&&◌, ◌||◌, Option, none, some,
  List, [], ◌∷◌, ◌++◌, ltb, leb, ◌==◌, if◌then◌else◌, length, set, get_or, replicate, Bytes, min,
}
use onlytwo.Base.Dict.{Dict, find, insert, erase, same}
use onlytwo.Config.Profile.{TransportProfile}
use onlytwo.Protocol.Messages.{
  FileOffer, FileChunk, CoreAppMessage, file_accept, file_reject, file_cancel, file_ack, file_nack,
}

pub data ReceiverStatus : Type 0 where
  offered receiving completed cancelled failed : ReceiverStatus

pub record Tools : Type 0 where
  pub decode_chunk : String → Option Bytes  -- `none` if it throws
  pub digest_blob : Bytes → String
  pub validate_filename : String → String
  pub format_bytes : ℕ → String

pub record ReceiveTransfer : Type 0 where
  pub file_id : String
  pub name : String
  pub mime : String
  pub size : ℕ
  pub chunk_size : ℕ
  pub total_chunks : ℕ
  pub sha256 : Option String
  pub status : ReceiverStatus
  pub chunks : List (Option Bytes)
  pub received : List ℕ
  pub blob : Option Bytes
  pub reason : Option String

-- `ReceiverSnapshot`, less the quotient `progress`.
pub record ReceiverSnapshot : Type 0 where
  pub file_id : String
  pub name : String
  pub size : ℕ
  pub received_bytes : ℕ
  pub status : ReceiverStatus
  pub reason : Option String
  pub blob : Option Bytes

pub record CompletedFile : Type 0 where
  pub file_id : String
  pub name : String
  pub mime : String
  pub size : ℕ
  pub blob : Bytes

-- The callbacks' calls.
pub data Event : Type 0 where
  sends : CoreAppMessage → Event
  updates : ReceiverSnapshot → Event
  completes : CompletedFile → Event

pub record FileReceiver : Type 0 where
  pub transfers : Dict ReceiveTransfer
  pub profile : TransportProfile

pub emit : ReceiveTransfer → Event
emit t = updates (record {
  file_id = t.file_id;
  name = t.name;
  size = t.size;
  received_bytes = min t.size (length t.received * t.chunk_size);
  status = t.status;
  reason = t.reason;
  blob = t.blob;
})

pub release : ReceiveTransfer → ReceiveTransfer
release t = record t { chunks = []; received = []; blob = none }

-- `["completed", "cancelled", "failed"].includes(status)`
unfoldable pub is_over : ReceiverStatus → Bool
is_over offered = false
is_over receiving = false
is_over _ = true

unfoldable pub ceil_div : ℕ → ℕ → ℕ
ceil_div n d = (n + (d - 1)) / d

abbrev pub put : FileReceiver → ReceiveTransfer → FileReceiver
put r t = record r { transfers = insert t.file_id t r.transfers }

pub set_profile : FileReceiver → TransportProfile → FileReceiver
set_profile r profile = record r { profile = profile }

pub reset : FileReceiver → FileReceiver
reset r = record r { transfers = [] }

remove_found : FileReceiver → String → Option ReceiveTransfer → FileReceiver
remove_found r file_id none = r
remove_found r file_id (some t) =
    if is_over t.status then record r { transfers = erase file_id r.transfers } else r

pub remove : FileReceiver → String → FileReceiver
unfolding remove_found
remove r file_id = remove_found r file_id (find file_id r.transfers)

-- The first test of `offer`.
unfoldable pub is_too_large : TransportProfile → FileOffer → Bool
is_too_large profile m =
    leb m.size 0
    || ltb profile.files.max_file_bytes m.size
    || ltb profile.files.max_memory_receive_bytes m.size

unfoldable pub expected_chunks : FileOffer → ℕ
unfolding ceil_div
expected_chunks m = if ltb 0 m.chunk_size then ceil_div m.size m.chunk_size else 0

-- The second one.
unfoldable pub has_bad_metadata : TransportProfile → FileOffer → Bool
unfolding ceil_div expected_chunks
has_bad_metadata profile m =
    leb m.chunk_size 0
    || ltb profile.files.chunk_bytes m.chunk_size
    || leb m.total_chunks 0
    || not (m.total_chunks == expected_chunks m)
    || ltb (ceil_div profile.files.max_file_bytes (if leb 1 m.chunk_size then m.chunk_size else 1))
        m.total_chunks

-- `some` active transfer of another file.
pub has_other_active : String → Dict ReceiveTransfer → Bool
has_other_active file_id [] = false
has_other_active file_id ((_, t) ∷ rest) =
    (not (same t.file_id file_id) && not (is_over t.status)) || has_other_active file_id rest

reject_offer : FileReceiver → String → String → FileReceiver × List Event
reject_offer r file_id reason = (r, sends (file_reject file_id reason) ∷ [])

-- `message.mime || "application/octet-stream"`
or_octets : String → String
or_octets mime = if same mime "" then "application/octet-stream" else mime

module _ (tools : Tools) where
  pub offered_transfer : FileOffer → ReceiveTransfer
  unfolding or_octets
  offered_transfer m = record {
    file_id = m.file_id;
    name = tools.validate_filename m.name;
    mime = or_octets m.mime;
    size = m.size;
    chunk_size = m.chunk_size;
    total_chunks = m.total_chunks;
    sha256 = m.sha256;
    status = offered;
    chunks = replicate m.total_chunks none;
    received = [];
    blob = none;
    reason = none;
  }

  -- `offer` once a finished transfer with the same id is out of the way.
  admit : FileReceiver → FileOffer → FileReceiver × List Event
  unfolding reject_offer
  admit r m =
      if has_other_active m.file_id r.transfers
      then reject_offer r m.file_id "Another incoming file transfer is already active"
      else (put r (offered_transfer m), emit (offered_transfer m) ∷ [])

  offer_over : FileReceiver → FileOffer → Option ReceiveTransfer → FileReceiver × List Event
  unfolding admit reject_offer
  offer_over r m none = admit r m
  offer_over r m (some previous) =
      if is_over previous.status
      then admit (record r { transfers = erase m.file_id r.transfers }) m
      else reject_offer r m.file_id "Duplicate active file transfer"

  pub offer : FileReceiver → FileOffer → FileReceiver × List Event
  unfolding offer_over reject_offer
  offer r m =
      if is_too_large r.profile m
      then reject_offer r m.file_id (
          str_append "File is too large for this browser ("
            (str_append (tools.format_bytes m.size) ")"))
      else if has_bad_metadata r.profile m
      then reject_offer r m.file_id "Invalid file metadata"
      else offer_over r m (find m.file_id r.transfers)

abbrev accepted : ReceiveTransfer → ReceiveTransfer
accepted t = record t { status = receiving; reason = none }

abbrev refused : ReceiveTransfer → ReceiveTransfer
refused t = release (record t { status = failed; reason = some "Could not accept file transfer" })

is_offered : ReceiverStatus → Bool
is_offered offered = true
is_offered _ = false

-- With the answer of `sendApp`.
accept_found : FileReceiver → Bool → Option ReceiveTransfer → FileReceiver × List Event
unfolding is_offered
accept_found r ok none = (r, [])
accept_found r ok (some t) =
    if not (is_offered t.status)
    then (r, [])
    else if ok
    then (put r (accepted t), emit (accepted t) ∷ sends (file_accept t.file_id) ∷ [])
    else (
      put r (refused t),
      emit (accepted t) ∷ sends (file_accept t.file_id) ∷ emit (refused t) ∷ [],
    )

pub accept : FileReceiver → String → Bool → FileReceiver × List Event
unfolding accept_found
accept r file_id ok = accept_found r ok (find file_id r.transfers)

abbrev cancelled_transfer : ReceiveTransfer → String → ReceiveTransfer
cancelled_transfer t reason = release (record t { status = cancelled; reason = some reason })

-- `reject` and `cancel`, which differ in the message that they send last.
stop_found : FileReceiver → String → List Event → Option ReceiveTransfer → FileReceiver × List Event
stop_found r reason last none = (r, [])
stop_found r reason last (some t) =
    (put r (cancelled_transfer t reason), emit (cancelled_transfer t reason) ∷ last)

pub reject : FileReceiver → String → String → FileReceiver × List Event
unfolding stop_found
reject r file_id reason =
    stop_found r reason (sends (file_reject file_id reason) ∷ []) (find file_id r.transfers)

pub cancel : FileReceiver → String → String → Bool → FileReceiver × List Event
unfolding stop_found
cancel r file_id reason notify =
    stop_found r reason (if notify then sends (file_cancel file_id reason) ∷ [] else [])
      (find file_id r.transfers)

pub peer_cancel : FileReceiver → String → String → FileReceiver × List Event
peer_cancel r file_id reason = cancel r file_id reason false
