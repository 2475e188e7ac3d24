-- ===== src/Files/Delivery.antt =====
-- A file from the `FileSender` of one side, client/src/features/file/FileSender.ts, to the
-- `FileReceiver` of the other, client/src/features/file/FileReceiver.ts.
pub mod Tests
use Prim.Native.String.{String}
use native.Mathlib.Nat
use onlytwo.Base.{
  sym, subst, if_either, ℕ, zero, suc, ap, ◌+◌, ◌-◌, ◌*◌, ◌≤◌, ◌<◌, ◌≡◌, refl, true, false, Option,
  none, some, List, [], ◌∷◌, if◌then◌else◌, leb, length, take, drop, Bytes, IsBytes, min, All,
  contains, arith, length-drop, Bool-cases, inl, inr,
}
use onlytwo.Base.Dict.{find}
use onlytwo.Config.Profile.{TransportProfile}
use onlytwo.Protocol.Messages.{FileOffer, FileChunk}
use onlytwo.Files.Receiver.{
  Tools, FileReceiver, ReceiveTransfer, completed, offer, accept, is_too_large, has_bad_metadata,
  ceil_div, expected_chunks,
}
use onlytwo.Files.Receiver.Chunks.{digest_matches}
use onlytwo.Files.Receiver.Copy.{slice}
use onlytwo.Files.Receiver.Whole.{Source, IsChunkOf, chunks, indices}
use onlytwo.Files.Receiver.Start.{new, IsOfferOf, file_received}
use onlytwo.Files.Sender.{SourceFile, Transfer}
use onlytwo.Files.Sender.Chunks.{chunk_message}
use onlytwo.Files.Sender.Operations.{offer_message}
use onlytwo.Files.Sender.Calls.{new_transfer, validate_outbound_file}

-- The messages of chunks with these indices.
abbrev pub chunk_messages : (Bytes → String) → Transfer → List ℕ → List FileChunk
chunk_messages encode_chunk t [] = []
chunk_messages encode_chunk t (i ∷ is) =
    chunk_message encode_chunk t i ∷ chunk_messages encode_chunk t is

take-min-length : (n : ℕ) (xs : Bytes) → take (min n (length xs)) xs ≡ take n xs
take-min-length zero xs = let e : min 0 (length xs) ≡ 0 = omega arith in rw e refl
take-min-length (suc n) [] = let e : min (suc n) 0 ≡ 0 = omega arith in rw e refl
take-min-length (suc n) (x ∷ xs) =
    let e : min (suc n) (suc (length xs)) ≡ suc (min n (length xs)) = omega arith in
    rw e (ap (◌∷◌ x) (take-min-length n xs))

-- `slice` stops at the end of the file, whether `end` is past it or not.
slice_lem :
    (content : Bytes) (c i : ℕ)
    → take (min (i * c + c) (length content) - i * c) (drop (i * c) content) ≡ slice content c i
slice_lem content c i =
    let rest = length-drop (i * c) content in
    let e : min (i * c + c) (length content) - i * c ≡ min c (length (drop (i * c) content)) =
      omega (arith, rest) in
    rw e (take-min-length c (drop (i * c) content))

take-IsBytes : (n : ℕ) (xs : Bytes) → IsBytes xs → IsBytes (take n xs)
take-IsBytes zero xs h = tt
take-IsBytes (suc n) [] h = tt
take-IsBytes (suc n) (x ∷ xs) h = (h.0, take-IsBytes n xs h.1)

drop-IsBytes : (n : ℕ) (xs : Bytes) → IsBytes xs → IsBytes (drop n xs)
drop-IsBytes zero xs h = h
drop-IsBytes (suc n) [] h = tt
drop-IsBytes (suc n) (x ∷ xs) h = drop-IsBytes n xs h.1

ceil_div_le : (a b d : ℕ) → 1 ≤ d → a ≤ b → ceil_div a d ≤ ceil_div b d
unfolding ceil_div
ceil_div_le a b d h l =
    (Nat.le-div_iff_mul-le {k = d} h).1
      (let below = Nat.div-mul-le_self (a + (d - 1)) d in omega (arith, below))

ceil_div_pos : (a d : ℕ) → 1 ≤ d → 1 ≤ a → 1 ≤ ceil_div a d
unfolding ceil_div
ceil_div_pos a d h l =
    (Nat.le-div_iff_mul-le {k = d} h).1 (let e : 1 * d ≡ d = omega arith in rw e (omega arith))

-- The source that the sender's transfer is for the receiver.
abbrev pub source_of : Transfer → Source
source_of t = record {
  id = t.file_id;
  content = t.file.content;
  chunk_size = t.chunk_size;
  total_chunks = t.total_chunks;
}

module _ (tools : Tools) (encode_chunk : Bytes → String) where
  message-IsChunkOf :
      (t : Transfer) (i : ℕ)
      → t.size ≡ length t.file.content
      → IsBytes t.file.content
      → ((b : Bytes) → IsBytes b → tools.decode_chunk (encode_chunk b) ≡ some b)
      → i < t.total_chunks
      → IsChunkOf tools (source_of t) (chunk_message encode_chunk t i)
  unfolding chunk_message
  message-IsChunkOf t i e b d l = record {
    same_id = refl;
    same_total = refl;
    in_range = l;
    part =
        let part = slice_lem t.file.content t.chunk_size i in
        rw (e, part)
          (d _ (take-IsBytes t.chunk_size _ (drop-IsBytes (i * t.chunk_size) t.file.content b)));
  }

  messages-All :
      (t : Transfer) (is : List ℕ)
      → t.size ≡ length t.file.content
      → IsBytes t.file.content
      → ((b : Bytes) → IsBytes b → tools.decode_chunk (encode_chunk b) ≡ some b)
      → All (λ i. i < t.total_chunks) is
      → All (IsChunkOf tools (source_of t)) (chunk_messages encode_chunk t is)
  messages-All t [] e b d l = tt
  messages-All t (i ∷ is) e b d l = (message-IsChunkOf t i e b d l.0, messages-All t is e b d l.1)

  messages-indices : (t : Transfer) (is : List ℕ) → indices (chunk_messages encode_chunk t is) ≡ is
  unfolding chunk_message
  messages-indices t [] = refl
  messages-indices t (i ∷ is) = ap (◌∷◌ i) (messages-indices t is)

module _ (validate_filename : String → String) (profile : TransportProfile) (file_id : String)
    (digest : Option String) (file : SourceFile) where
  abbrev pub sent_transfer : Transfer
  sent_transfer = new_transfer validate_filename profile file_id digest file false

  offered-fits :
      validate_outbound_file profile file ≡ true
      → length file.content ≤ profile.files.max_memory_receive_bytes
      → (is_too_large profile (offer_message sent_transfer)) ≡ false
  unfolding validate_outbound_file is_too_large offer_message new_transfer
  offered-fits h m = ground (arith, h)

  offered-well_formed :
      validate_outbound_file profile file ≡ true
      → 1 ≤ profile.files.chunk_bytes
      → (has_bad_metadata profile (offer_message sent_transfer)) ≡ false
  unfolding validate_outbound_file has_bad_metadata expected_chunks offer_message new_transfer
  offered-well_formed h c =
      let pos =
        ceil_div_pos (length file.content) profile.files.chunk_bytes c (ground (arith, h)) in
      let le =
        ceil_div_le (length file.content) profile.files.max_file_bytes profile.files.chunk_bytes c
          (ground (arith, h)) in
      ground (arith, pos, le)

  offered-IsOfferOf :
      (tools : Tools)
      → digest_matches tools digest file.content ≡ true
      → IsOfferOf tools (source_of sent_transfer) (offer_message sent_transfer)
  unfolding offer_message new_transfer digest_matches
  offered-IsOfferOf tools d = record {
    same_id = refl;
    same_size = refl;
    same_cut = refl;
    same_total = refl;
    same_digest =
        if_either (λ o. digest_matches tools o file.content ≡ true)
          (leb (length file.content) profile.files.small_bytes) d refl;
  }

-- A file that the sender takes and that fits the receiver's memory, offered by the sender to a new
-- receiver with the same profile, accepted, and sent in chunk messages in any order and with
-- repetitions, but every chunk at least once, arrives: the receiver's transfer is completed with exactly
-- the content of the file. The two codecs are inverse on bytes, and the sender's digest, if it has one,
-- is the one that the receiver computes of the content.
pub file_delivered :
    (tools : Tools) (encode_chunk : Bytes → String) (validate_filename : String → String)
    (profile : TransportProfile) (file_id : String) (digest : Option String) (file : SourceFile)
    (is : List ℕ)
    → ((b : Bytes) → IsBytes b → tools.decode_chunk (encode_chunk b) ≡ some b)
    → digest_matches tools digest file.content ≡ true
    → IsBytes file.content
    → validate_outbound_file profile file ≡ true
    → length file.content ≤ profile.files.max_memory_receive_bytes
    → 1 ≤ profile.files.chunk_bytes
    → let t = new_transfer validate_filename profile file_id digest file false in
      All (λ i. i < t.total_chunks) is
      → ((i : ℕ) → i < t.total_chunks → contains is i ≡ true)
      → let receiver = (accept (offer tools (new profile) (offer_message t)).0 file_id true).0 in
        let arrived = chunks tools (source_of t) receiver (chunk_messages encode_chunk t is) in
        (u : ReceiveTransfer) × (find file_id arrived.transfers ≡ some u)
        × (u.status ≡ completed)
        × (u.blob ≡ some file.content)
unfolding new_transfer offer_message
file_delivered tools encode_chunk validate_filename profile file_id digest file is d g b o m c l h =
    let t = sent_transfer validate_filename profile file_id digest file in
    let named = messages-indices tools encode_chunk t is in
    file_received tools profile (offer_message t) (source_of t) (chunk_messages encode_chunk t is)
      (offered-fits validate_filename profile file_id digest file o m)
      (offered-well_formed validate_filename profile file_id digest file o c)
      (offered-IsOfferOf validate_filename profile file_id digest file tools g)
      (messages-All tools encode_chunk t is refl b d l)
      (λ i k. subst (λ js. contains js i ≡ true) (sym named) (h i k))
