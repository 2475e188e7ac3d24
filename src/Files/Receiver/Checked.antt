-- ===== src/Files/Receiver/Checked.antt =====
-- What is checked before a file is handed on, whatever the peer sends.
use onlytwo.Base.{
  contains, if_either, ==_iff, ℕ, ◌≡◌, refl, true, not, ◌||◌, Option, none, some, List, leb, ◌==◌,
  length, Bytes, Bool-cases, inl, inr, All, ==_iff,
}
use onlytwo.Base.Dict.{find}
use onlytwo.Files.Receiver.{
  Tools, FileReceiver, ReceiveTransfer, Event, sends, updates, completes, emit,
}
use onlytwo.Files.Receiver.Chunks.{
  blob_of, stored, digest_matches, chunk, chunk_found, decoded, store, complete, is_receiving,
  has_expected_bytes,
}
use onlytwo.Protocol.Messages.{FileChunk}

-- A file that is handed on is the one of the transfer: its id, the size that the offer announced, as many
-- bytes, and the digest that the offer announced.
abbrev pub IsChecked : Tools → ReceiveTransfer → Event → Type 0
IsChecked tools t (sends _) = Unit
IsChecked tools t (updates _) = Unit
IsChecked tools t (completes f) =
    (f.file_id ≡ t.file_id)
    × (f.size ≡ t.size)
    × (length f.blob ≡ t.size)
    × (digest_matches tools t.sha256 f.blob ≡ true)

module _ (tools : Tools) where
  complete-IsChecked :
      (r : FileReceiver) (t : ReceiveTransfer) → All (IsChecked tools t) (complete tools r t).1
  unfolding complete emit
  complete-IsChecked r t = elim (Bool-cases (length (blob_of t.chunks) == t.size)) [
    | inr s ↦ rw s (tt, (tt, tt))
    | inl s ↦ elim (Bool-cases (digest_matches tools t.sha256 (blob_of t.chunks))) [
      | inr d ↦ rw (s, d) (tt, (tt, tt))
      | inl d ↦ rw (s, d) (tt, ((refl, refl, (==_iff _ _).0 s, d), tt))
    ]
  ]

  store-IsChecked :
      (r : FileReceiver) (t : ReceiveTransfer) (i : ℕ) (b : Bytes)
      → All (IsChecked tools t) (store tools r t i b).1
  unfolding store stored emit
  store-IsChecked r t i b = elim (Bool-cases (length (stored t i b).received == t.total_chunks)) [
    | inr s ↦ rw s (tt, (tt, tt))
    | inl s ↦ rw s (tt, (tt, complete-IsChecked _ (stored t i b)))
  ]

  decoded-IsChecked :
      (r : FileReceiver) (m : FileChunk) (t : ReceiveTransfer) (o : Option Bytes)
      → All (IsChecked tools t) (decoded tools r m t o).1
  unfolding decoded
  decoded-IsChecked r m t none = (tt, tt)
  decoded-IsChecked r m t (some b) = elim (Bool-cases (has_expected_bytes t m.index b)) [
    | inr s ↦ rw s (tt, tt)
    | inl s ↦ rw s (store-IsChecked r t m.index b)
  ]

  -- A chunk, of whatever content, makes the receiver hand on a file only if the file has the id and the
  -- size of the offered transfer, exactly as many bytes, and the digest that was offered, if there
  -- was one.
  pub chunk-IsChecked :
      (r : FileReceiver) (m : FileChunk) (t : ReceiveTransfer)
      → find m.file_id r.transfers ≡ some t
      → All (IsChecked tools t) (chunk tools r m).1
  unfolding chunk chunk_found
  chunk-IsChecked r m t e = rw e (
      if_either P (not (is_receiving t.status)) tt (
        if_either P (not (m.total_chunks == t.total_chunks) || leb t.total_chunks m.index) (tt, tt)
          (if_either P (contains t.received m.index) (tt, tt)
            (decoded-IsChecked r m t (tools.decode_chunk m.content)))))
    where
      P : FileReceiver × List Event → Type 0
      P x = All (IsChecked tools t) x.1
