-- ===== src/Files/Delivery/Tests.antt =====
-- A small file through both sides, with a codec that writes each byte as a run of letters.
use Prim.Native.String.{String, [], ◌∷◌}
use Prim.Native.Char.{code}
use onlytwo.Base.{
  ℕ, zero, suc, ◌+◌, ◌<◌, ◌≡◌, refl, ap, true, false, none, some, List, [], ◌∷◌, if◌then◌else◌,
  ◌==◌, contains, Bytes, All, arith,
}
use onlytwo.Base.Dict.{find}
use onlytwo.Protocol.Json.{utf16_length}
use onlytwo.Files.Receiver.{Tools, ReceiveTransfer, completed, offer, accept, ceil_div}
use onlytwo.Files.Receiver.Chunks.{digest_matches}
use onlytwo.Files.Receiver.Whole.{chunks}
use onlytwo.Files.Receiver.Start.{new}
use onlytwo.Files.Sender.{Transfer}
use onlytwo.Files.Sender.Operations.{offer_message}
use onlytwo.Files.Sender.Calls.{new_transfer, validate_outbound_file}
use onlytwo.Files.Sender.Tests.{narrow_profile, small_file}
use onlytwo.Files.Delivery.{source_of, chunk_messages, file_delivered}

abbrev marks : ℕ → String → String
marks zero s = "b" ∷ s
marks (suc n) s = "a" ∷ marks n s

abbrev write : Bytes → String
write [] = ""
write (n ∷ bs) = marks n (write bs)

-- With the length of the run so far.
abbrev read : ℕ → String → Bytes
read n [] = []
read n (c ∷ s) =
    let longer = read (suc n) s in
    let next = read 0 s in if code c == 97 then longer else (n ∷ next)

read-marks : (n m : ℕ) (s : String) → read m (marks n s) ≡ (m + n) ∷ read 0 s
read-marks zero m s = let e : m + 0 ≡ m = omega arith in rw e refl
read-marks (suc n) m s =
    let e : m + suc n ≡ suc m + n = omega arith in rw e (read-marks n (suc m) s)

read-write : (bs : Bytes) → read 0 (write bs) ≡ bs
read-write [] = refl
read-write (n ∷ bs) =
    let e : 0 + n ≡ n = omega arith in rw (read-marks n 0 (write bs), e, read-write bs) refl

abbrev tools : Tools
tools = record {
  decode_chunk = λ s. some (read 0 s);
  digest_blob = λ b. "";
  format_bytes = λ n. "";
  validate_filename = λ s. s;
}

abbrev sent : Transfer
sent = new_transfer (λ s. s) narrow_profile "file_1" none small_file false

taken : validate_outbound_file narrow_profile small_file ≡ true
unfolding validate_outbound_file utf16_length
taken = refl

no_digest : digest_matches tools none small_file.content ≡ true
unfolding digest_matches
no_digest = refl

abbrev twice : List ℕ
twice = 1 ∷ 0 ∷ 1 ∷ []

in_range : All (λ i. i < sent.total_chunks) twice
unfolding new_transfer ceil_div
in_range = (omega arith, (omega arith, (omega arith, tt)))

each_once : (i : ℕ) → i < sent.total_chunks → contains twice i ≡ true
unfolding new_transfer ceil_div contains
each_once zero h = refl
each_once (suc zero) h = refl
each_once (suc (suc i)) h = absurd (omega arith)

file_delivered_example :
    let receiver =
      (accept (offer tools (new narrow_profile) (offer_message sent)).0 "file_1" true).0 in
    let arrived = chunks tools (source_of sent) receiver (chunk_messages write sent twice) in
    (u : ReceiveTransfer) × (find "file_1" arrived.transfers ≡ some u)
    × (u.status ≡ completed)
    × (u.blob ≡ some small_file.content)
file_delivered_example =
    file_delivered tools write (λ s. s) narrow_profile "file_1" none small_file twice
      (λ b _. ap some (read-write b)) no_digest (omega arith, (omega arith, (omega arith, tt)))
      taken (omega arith) (omega arith) in_range each_once
