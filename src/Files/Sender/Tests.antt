-- ===== src/Files/Sender/Tests.antt =====
-- A small file through the sender.
use onlytwo.Base.{ℕ, ◌≤◌, ◌≡◌, ◌⊎◌, ◌<◌, true, false, refl, none, some, [], ◌∷◌, length, contains}
use onlytwo.Base.Dict.{find, insert}
use onlytwo.Config.Profile.{TransportProfile}
use onlytwo.Config.Table.{balanced_profile}
use onlytwo.Protocol.Json.{utf16_length}
use onlytwo.Files.Receiver.{ceil_div}
use onlytwo.Files.Sender.{SourceFile, FileSender, Transfer, completed, sending}
use onlytwo.Files.Sender.Inflight.{put}
use onlytwo.Files.Sender.Chunks.{send_chunk, keep}
use onlytwo.Files.Sender.Pump.{pump, may_pump, fill, has_room, complete_if_done, is_sending}
use onlytwo.Files.Sender.Operations.{at, at_found, accept_act}
use onlytwo.Files.Sender.Calls.{offers, accepts, call, offer, new_transfer, validate_outbound_file}
use onlytwo.Files.Sender.Reachable.{empty_sender, start, calls, window_kept}
use onlytwo.Files.Sender.Full.{pump_fills}

-- Chunks of two bytes, one at a time.
abbrev pub narrow_profile : TransportProfile
narrow_profile = record balanced_profile {
  files = record balanced_profile.files { chunk_bytes = 2; window_chunks = 1 };
}

abbrev pub small_file : SourceFile
small_file = record { name = "a.bin"; mime = ""; content = 1 ∷ 2 ∷ 3 ∷ [] }

abbrev fresh : Transfer
fresh = new_transfer (λ s. s) narrow_profile "file_1" none small_file false

abbrev accepting : Transfer
accepting = record fresh { accepted = true; status = sending; reason = none }

abbrev under_way : Transfer
under_way = (pump narrow_profile false accepting).0

abbrev offered_state : FileSender
offered_state =
    (call (λ s. s) (empty_sender narrow_profile) (offers "file_1" none small_file false)).0

abbrev accepted_state : FileSender
accepted_state = (call (λ s. s) offered_state (accepts "file_1")).0

under_way_found : find "file_1" accepted_state.transfers ≡ some under_way
unfolding call offer at at_found find insert accept_act validate_outbound_file utf16_length
    new_transfer
under_way_found = refl

window_kept_example :
    (length under_way.inflight ≤ accepted_state.profile.files.window_chunks)
    × (under_way.status ≡ completed
        → (i : ℕ) → i < under_way.total_chunks
        → contains under_way.acked i ≡ true)
window_kept_example =
    window_kept (λ s. s) accepted_state "file_1" under_way
      (calls offered_state (accepts "file_1") (
        calls (empty_sender narrow_profile) (offers "file_1" none small_file false)
          (start narrow_profile)))
      under_way_found

accepting_pumps : may_pump narrow_profile false accepting ≡ true
unfolding may_pump new_transfer is_sending
accepting_pumps = refl

not_pumping : accepting.pumping ≡ false
unfolding new_transfer
not_pumping = refl

pump_fills_example :
    (under_way.is_cancelled ≡ false)
    × ((1 ≤ length under_way.inflight) ⊎ (under_way.total_chunks ≤ under_way.next_index))
pump_fills_example = pump_fills narrow_profile false accepting not_pumping accepting_pumps

-- One chunk is in flight and one is left.
one_in_flight :
    (length under_way.inflight ≡ 1) × (under_way.next_index ≡ 1) × (under_way.total_chunks ≡ 2)
unfolding pump fill has_room send_chunk keep put complete_if_done may_pump is_sending new_transfer
    contains ceil_div
one_in_flight = (refl, refl, refl)
