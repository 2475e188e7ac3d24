-- ===== src/Session.antt =====
-- client/src/session: the state of `SessionController`, with the types of client/src/session/types.ts,
-- and its transcript. A transfer's `progress`, a quotient, stands as the bytes moved. `emit` and the
-- listeners are left out; `makeId` and `Date.now()` give a stamp, which is an argument.
pub mod Calls
pub mod Transfers
pub mod Inbox
pub mod Actions
pub mod Handshake
pub mod Lifecycle
pub mod Resume
pub mod System
pub mod Meeting
pub mod Tests
use Prim.Native.String.{String}
use onlytwo.Base.{
  ℕ, ◌-◌, Bool, true, false, ◌&&◌, ◌||◌, not, Option, none, some, List, [], ◌∷◌, ◌++◌, leb, length,
  drop, if◌then◌else◌, Bytes,
}
use onlytwo.Base.Dict.{same}
use onlytwo.Config.Profile.{TransportProfile, TransportProfileId}
use onlytwo.Crypto.Channel.{SecureChannel}
use onlytwo.Transport.Reconnect.{ConnectionStatus}
use onlytwo.Files.Sender.{Note}

pub data Phase : Type 0 where
  idle creating joining waiting active ended failed : Phase

pub data SecurityState : Type 0 where
  not_secure encrypted_unverified verified verification_failed : SecurityState

pub data VoiceState : Type 0 where
  idle starting active muted failed : VoiceState

pub data TransferDirection : Type 0 where
  send receive : TransferDirection

pub data TransferState : Type 0 where
  queued offered waiting sending receiving paused completed cancelled failed : TransferState

pub data ItemKind : Type 0 where
  text system file : ItemKind

pub data Author : Type 0 where
  me peer system : Author

pub data ItemStatus : Type 0 where
  sending sent failed : ItemStatus

pub data Severity : Type 0 where
  info error : Severity

pub record TranscriptItem : Type 0 where
  pub id : String
  pub kind : ItemKind
  pub author : Author
  pub text : String
  pub at : ℕ
  pub status : Option ItemStatus
  pub severity : Option Severity
  pub file_id : Option String

pub record TransferView : Type 0 where
  pub file_id : String
  pub direction : TransferDirection
  pub name : String
  pub size : ℕ
  pub moved_bytes : ℕ
  pub state : TransferState
  pub reason : Option Note
  pub blob : Option Bytes

pub record SessionViewState : Type 0 where
  pub phase : Phase
  pub room_code : String
  pub profile_id : TransportProfileId
  pub connection : ConnectionStatus
  pub security : SecurityState
  pub safety_phrase : Option String
  pub notice : Option String
  pub voice : VoiceState
  pub muted : Bool
  pub audio_playback_blocked : Bool
  pub invalid_packets : ℕ
  pub transcript : List TranscriptItem
  pub transfers : List TransferView

pub record Session : Type 0 where
  pub view : SessionViewState  -- `state`
  pub profile : TransportProfile
  pub secure : Option SecureChannel
  pub local_public_key : Option Bytes
  pub peer_public_key : Option Bytes
  pub initial_handshake_sent : Bool
  pub reply_handshake_sent : Bool
  pub establishing : Bool
  pub lifecycle_epoch : ℕ
  pub secure_epoch : ℕ
  pub startup_in_flight : Bool
  pub remote_voice_active : Bool
  pub transfer_order : List String

pub record Stamp : Type 0 where
  pub id : String
  pub at : ℕ

abbrev pub patch : Session → (SessionViewState → SessionViewState) → Session
patch s change = record s { view = change s.view }

abbrev pub max_transcript_items : ℕ
max_transcript_items = 500

unfoldable pub trim_transcript : List TranscriptItem → List TranscriptItem
trim_transcript items =
    if leb (length items) max_transcript_items
    then items
    else drop (length items - max_transcript_items) items

unfoldable pub add_transcript : Session → TranscriptItem → Session
add_transcript s item =
    patch s (λ v. record v { transcript = trim_transcript (v.transcript ++ item ∷ []) })

abbrev pub severity_eq : Severity → Severity → Bool
severity_eq info info = true
severity_eq error error = true
severity_eq _ _ = false

abbrev pub kind_eq : ItemKind → ItemKind → Bool
kind_eq ItemKind.text ItemKind.text = true
kind_eq ItemKind.system ItemKind.system = true
kind_eq ItemKind.file ItemKind.file = true
kind_eq _ _ = false

abbrev pub has_severity : Option Severity → Severity → Bool
has_severity none y = false
has_severity (some x) y = severity_eq x y

-- Whether the last item is a system message of this text and severity.
unfoldable pub ends_with : List TranscriptItem → String → Severity → Bool
ends_with [] said severity = false
ends_with (i ∷ []) said severity =
    kind_eq i.kind ItemKind.system && (same i.text said && has_severity i.severity severity)
ends_with (i ∷ (j ∷ is)) said severity = ends_with (j ∷ is) said severity

abbrev pub system_item : Stamp → String → Severity → TranscriptItem
system_item stamp said severity = record {
  id = stamp.id;
  kind = ItemKind.system;
  author = Author.system;
  text = said;
  at = stamp.at;
  status = none;
  severity = some severity;
  file_id = none;
}

unfoldable pub system_said : Stamp → String → Severity → SessionViewState → SessionViewState
system_said stamp said severity v =
    let longer = trim_transcript (v.transcript ++ system_item stamp said severity ∷ []) in
    record v { transcript = if ends_with v.transcript said severity then v.transcript else longer }

unfoldable pub add_system : Stamp → String → Severity → Session → Session
add_system stamp said severity s = patch s (system_said stamp said severity)

abbrev pub with_status : String → ItemStatus → TranscriptItem → TranscriptItem
with_status id status i = if same i.id id then record i { status = some status } else i

unfoldable pub update_items : String → ItemStatus → List TranscriptItem → List TranscriptItem
update_items id status [] = []
update_items id status (i ∷ is) = with_status id status i ∷ update_items id status is

unfoldable pub status_updated : String → ItemStatus → SessionViewState → SessionViewState
status_updated id status v = record v { transcript = update_items id status v.transcript }

unfoldable pub update_transcript_status : String → ItemStatus → Session → Session
update_transcript_status id status s = patch s (status_updated id status)
