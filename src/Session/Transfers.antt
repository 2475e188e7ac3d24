-- ===== src/Session/Transfers.antt =====
-- The transfers of client/src/session/SessionController.ts: how snapshots of the sender and the receiver
-- become views, in the order of `transferOrder`, and which of them are kept.
pub mod Retained
use Prim.Native.String.{String}
use onlytwo.Base.{
  ℕ, Bool, true, false, not, ◌&&◌, ◌||◌, Option, none, some, List, [], ◌∷◌, ◌++◌, drop,
  if◌then◌else◌,
}
use onlytwo.Base.Dict.{same}
use onlytwo.Transport.Reconnect.{ConnectionStatus}
use onlytwo.Files.Sender.{SenderSnapshot, SenderStatus, Note, words}
use onlytwo.Files.Receiver.{ReceiverSnapshot, ReceiverStatus}
use onlytwo.Session.{
  Session, SessionViewState, TransferView, TransferState, TransferDirection, TranscriptItem,
  ItemKind, Author, VoiceState, Stamp, patch, kind_eq, trim_transcript,
}
use onlytwo.Session.Calls.{Call, sender_remove, receiver_remove, sender_start_queued}

abbrev pub max_retained_transfers : ℕ
max_retained_transfers = 30

abbrev pub map_sender_status : SenderStatus → TransferState
map_sender_status SenderStatus.offered = TransferState.waiting
map_sender_status SenderStatus.sending = TransferState.sending
map_sender_status SenderStatus.paused = TransferState.paused
map_sender_status SenderStatus.queued = TransferState.queued
map_sender_status SenderStatus.completed = TransferState.completed
map_sender_status SenderStatus.cancelled = TransferState.cancelled
map_sender_status SenderStatus.failed = TransferState.failed

abbrev pub map_receiver_status : ReceiverStatus → TransferState
map_receiver_status ReceiverStatus.offered = TransferState.offered
map_receiver_status ReceiverStatus.receiving = TransferState.receiving
map_receiver_status ReceiverStatus.completed = TransferState.completed
map_receiver_status ReceiverStatus.cancelled = TransferState.cancelled
map_receiver_status ReceiverStatus.failed = TransferState.failed

-- `["completed", "cancelled", "failed"].includes(state)`
abbrev pub is_over : TransferState → Bool
is_over TransferState.completed = true
is_over TransferState.cancelled = true
is_over TransferState.failed = true
is_over _ = false

-- `["offered", "waiting", "sending", "paused"].includes(state)`
abbrev pub is_going : TransferState → Bool
is_going TransferState.offered = true
is_going TransferState.waiting = true
is_going TransferState.sending = true
is_going TransferState.paused = true
is_going _ = false

abbrev pub is_queued : TransferState → Bool
is_queued TransferState.queued = true
is_queued _ = false

abbrev pub is_sent : TransferDirection → Bool
is_sent TransferDirection.send = true
is_sent TransferDirection.receive = false

abbrev pub or_this : {A : Type 0} → Option A → Option A → Option A
or_this none b = b
or_this (some a) b = some a

abbrev pub listed_one : Option TransferView → List TransferView → List TransferView
listed_one none rest = rest
listed_one (some t) rest = t ∷ rest

abbrev pub has_id : Option String → String → Bool
has_id none id = false
has_id (some other) id = same other id

abbrev pub noted : Option String → Option Note
noted none = none
noted (some reason) = some (words reason)

module _ {A : Type 0} where
  unfoldable pub filter : (A → Bool) → List A → List A
  filter p [] = []
  filter p (x ∷ xs) = if p x then x ∷ filter p xs else filter p xs

  unfoldable pub any : (A → Bool) → List A → Bool
  any p [] = false
  any p (x ∷ xs) = p x || any p xs

  -- `[...xs].reverse().find(p)`
  unfoldable pub find_last : (A → Bool) → List A → Option A
  find_last p [] = none
  find_last p (x ∷ xs) = or_this (find_last p xs) (if p x then some x else none)

abbrev pub is_of : String → TransferView → Bool
is_of id t = same t.file_id id

-- `existing.set(view.fileId, view)` and `transferOrder.map(existing.get).filter(Boolean)`; of two views
-- with one id, a `Map` has the later.
unfoldable pub listed : TransferView → List TransferView → List String → List TransferView
listed view old [] = []
listed view old (id ∷ ids) =
    listed_one (if is_of id view then some view else find_last (is_of id) old) (listed view old ids)

abbrev pub shows_file : String → TranscriptItem → Bool
shows_file id i = kind_eq i.kind ItemKind.file && has_id i.file_id id

unfoldable pub ensure_transfer_order : String → List String → List String
ensure_transfer_order id order = if any (same id) order then order else id ∷ order

-- A transfer that is over and still shown.
abbrev pub is_retained : List TransferView → String → Bool
is_retained transfers id = any (λ t. is_of id t && is_over t.state) transfers

unfoldable pub retained : Session → List String
retained s = filter (is_retained s.view.transfers) s.transfer_order

unfoldable pub remove_transfer_view : String → Session → Session
remove_transfer_view id s = record s {
  view = record s.view {
    transfers = filter (λ t. not (is_of id t)) s.view.transfers;
    transcript = filter (λ i. not (shows_file id i)) s.view.transcript;
  };
  transfer_order = filter (λ other. not (same other id)) s.transfer_order;
}

unfoldable pub remove_all : List String → Session → Session × List Call
remove_all [] s = (s, [])
remove_all (id ∷ ids) s =
    let (after, calls) = remove_all ids (remove_transfer_view id s) in
    (after, sender_remove id ∷ receiver_remove id ∷ calls)

unfoldable pub trim_retained_transfers : Session → Session × List Call
trim_retained_transfers s = remove_all (drop max_retained_transfers (retained s)) s

abbrev pub author_of : TransferDirection → Author
author_of TransferDirection.send = Author.me
author_of TransferDirection.receive = Author.peer

abbrev pub file_item : Stamp → TransferView → TranscriptItem
file_item stamp view = record {
  id = stamp.id;
  kind = ItemKind.file;
  author = author_of view.direction;
  text = view.name;
  at = stamp.at;
  status = none;
  severity = none;
  file_id = some view.file_id;
}

-- `upsertTransfer`, before `trimRetainedTransfers`.
unfoldable pub upserted : Stamp → TransferView → Session → Session
upserted stamp view s =
    let order = ensure_transfer_order view.file_id s.transfer_order in
    let longer = trim_transcript (s.view.transcript ++ file_item stamp view ∷ []) in
    record s {
      view = record s.view {
        transfers = listed view s.view.transfers order;
        transcript =
            if any (shows_file view.file_id) s.view.transcript then s.view.transcript else longer;
      };
      transfer_order = order;
    }

unfoldable pub upsert_transfer : Stamp → TransferView → Session → Session × List Call
upsert_transfer stamp view s = trim_retained_transfers (upserted stamp view s)

unfoldable pub is_voice_active : VoiceState → Bool
is_voice_active VoiceState.starting = true
is_voice_active VoiceState.active = true
is_voice_active VoiceState.muted = true
is_voice_active _ = false

abbrev pub is_connected : ConnectionStatus → Bool
is_connected ConnectionStatus.connected = true
is_connected _ = false

-- `hasActiveSendingFileExceptQueued`
unfoldable pub has_other_sending : String → List TransferView → Bool
has_other_sending id = any (λ t. not (is_of id t) && (is_sent t.direction && is_going t.state))

-- `hasActiveFile`
unfoldable pub has_active_file : List TransferView → Bool
has_active_file = any (λ t. is_sent t.direction && (is_going t.state || is_queued t.state))

unfoldable pub start_found : Option TransferView → List TransferView → List Call
start_found none transfers = []
start_found (some t) transfers =
    if has_other_sending t.file_id transfers then [] else sender_start_queued t.file_id ∷ []

unfoldable pub start_next_queued_file : Session → List Call
start_next_queued_file s =
    if is_voice_active s.view.voice
      || (s.remote_voice_active || not (is_connected s.view.connection))
    then []
    else start_found (find_last (λ t. is_sent t.direction && is_queued t.state) s.view.transfers)
        s.view.transfers

unfoldable pub update_sender : Stamp → SenderSnapshot → Session → Session × List Call
update_sender stamp n s =
    let (after, calls) =
      upsert_transfer stamp
        (record {
          file_id = n.file_id;
          direction = TransferDirection.send;
          name = n.name;
          size = n.size;
          moved_bytes = n.sent_bytes;
          state = map_sender_status n.status;
          reason = n.reason;
          blob = none;
        })
        s in
    (
      after,
      calls ++ (if is_over (map_sender_status n.status) then start_next_queued_file after else []),
    )

unfoldable pub update_receiver : Stamp → ReceiverSnapshot → Session → Session × List Call
update_receiver stamp n s =
    upsert_transfer stamp
      (record {
        file_id = n.file_id;
        direction = TransferDirection.receive;
        name = n.name;
        size = n.size;
        moved_bytes = n.received_bytes;
        state = map_receiver_status n.status;
        reason = noted n.reason;
        blob = n.blob;
      })
      s
