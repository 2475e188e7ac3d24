-- ===== src/Files/Receiver/Tests.antt =====
-- A small file through the receiver.
use onlytwo.Base.{
  contains, ℕ, zero, suc, ◌≡◌, ◌<◌, refl, true, false, none, some, List, [], ◌∷◌, arith,
  if◌then◌else◌, All,
}
use onlytwo.Base.Dict.{find, same}
use onlytwo.Config.Table.{balanced_profile}
use onlytwo.Protocol.Messages.{FileOffer, FileChunk}
use onlytwo.Files.Receiver.{
  Tools, ReceiveTransfer, FileReceiver, is_too_large, has_bad_metadata, expected_chunks, ceil_div,
  receiving,
}
use onlytwo.Files.Receiver.Chunks.{digest_matches, chunk}
use onlytwo.Files.Receiver.Whole.{Source, IsChunkOf, indices}
use onlytwo.Files.Receiver.Checked.{IsChecked, chunk-IsChecked}
use onlytwo.Files.Receiver.Start.{IsOfferOf}

abbrev tools : Tools
tools = record {
  decode_chunk = λ s. if same s "AQI" then some (1 ∷ 2 ∷ []) else some (3 ∷ []);
  digest_blob = λ b. "";
  format_bytes = λ n. "";
  validate_filename = λ s. s;
}

abbrev source : Source
source = record { id = "file_1"; content = 1 ∷ 2 ∷ 3 ∷ []; chunk_size = 2; total_chunks = 2 }

abbrev announced : FileOffer
announced = record {
  file_id = "file_1";
  name = "a.bin";
  mime = "";
  size = 3;
  chunk_size = 2;
  total_chunks = 2;
  sha256 = none;
}

abbrev first_half : FileChunk
first_half = record { file_id = "file_1"; index = 0; total_chunks = 2; content = "AQI" }

abbrev second_half : FileChunk
second_half = record { file_id = "file_1"; index = 1; total_chunks = 2; content = "Aw" }

abbrev backwards : List FileChunk
backwards = second_half ∷ second_half ∷ first_half ∷ []

not_too_large : is_too_large balanced_profile announced ≡ false
unfolding is_too_large
not_too_large = refl

good_metadata : has_bad_metadata balanced_profile announced ≡ false
unfolding has_bad_metadata expected_chunks ceil_div
good_metadata = refl

announced-IsOfferOf : IsOfferOf tools source announced
unfolding digest_matches
announced-IsOfferOf = record {
  same_id = refl;
  same_size = refl;
  same_cut = refl;
  same_total = refl;
  same_digest = refl;
}

first-IsChunkOf : IsChunkOf tools source first_half
first-IsChunkOf = record { same_id = refl; same_total = refl; in_range = omega arith; part = refl }

second-IsChunkOf : IsChunkOf tools source second_half
second-IsChunkOf = record { same_id = refl; same_total = refl; in_range = omega arith; part = refl }

all_there : (i : ℕ) → i < 2 → contains (indices backwards) i ≡ true
unfolding contains
all_there zero h = refl
all_there (suc zero) h = refl
all_there (suc (suc i)) h = absurd (omega arith)

abbrev running : ReceiveTransfer
running = record {
  file_id = "file_1";
  name = "a.bin";
  mime = "";
  size = 3;
  chunk_size = 2;
  total_chunks = 2;
  sha256 = none;
  status = receiving;
  chunks = none ∷ some (3 ∷ []) ∷ [];
  received = 1 ∷ [];
  blob = none;
  reason = none;
}

abbrev half_way : FileReceiver
half_way = record { transfers = ("file_1", running) ∷ []; profile = balanced_profile }

running_found : find "file_1" half_way.transfers ≡ some running
unfolding find
running_found = refl

chunk-IsChecked_example : All (IsChecked tools running) (chunk tools half_way first_half).1
chunk-IsChecked_example = chunk-IsChecked tools half_way first_half running running_found
