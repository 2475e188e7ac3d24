-- ===== src/Files/Receiver/Whole.antt =====
-- A whole file through `chunk`.
use Prim.Native.String.{String}
use onlytwo.Base.{
  contains, contains-append, ==_iff, ◌⊎◌, ℕ, ◌+◌, ◌<◌, ◌≡◌, ◌∙◌, refl, sym, subst, true, false,
  ◌||◌, some, List, [], ◌∷◌, ◌==◌, length, Bytes, arith, length-append, Bool-cases, inl, inr, All,
}
use onlytwo.Base.Dict.{find, insert, find-insert_self}
use onlytwo.Files.Receiver.{Tools, FileReceiver, ReceiveTransfer, receiving, completed, put}
use onlytwo.Files.Receiver.Chunks.{
  stored, finished, digest_matches, chunk, chunk_found, decoded, store, complete, is_receiving,
}
use onlytwo.Files.Receiver.Copy.{
  slice, IsCopying, blob_whole, slice_expected, stored-IsCopying, received_all,
}
use onlytwo.Protocol.Messages.{FileChunk}

module _ (tools : Tools) where
  -- A transfer that has every chunk of the file is completed with the file's content.
  complete_whole :
      (r : FileReceiver) (content : Bytes) (t : ReceiveTransfer)
      → IsCopying content t
      → length t.received ≡ t.total_chunks
      → digest_matches tools t.sha256 content ≡ true
      → (complete tools r t).0 ≡ put r (finished t content)
  unfolding complete
  complete_whole r content t v h d =
      let whole = blob_whole content t v h in
      let size = v.whole in rw (whole) (ground (arith, size, d))

  -- A new chunk of the file, in a running transfer, is stored.
  chunk_stored :
      (r : FileReceiver) (m : FileChunk) (content : Bytes) (t : ReceiveTransfer)
      → find m.file_id r.transfers ≡ some t
      → t.status ≡ receiving
      → IsCopying content t
      → m.index < t.total_chunks
      → m.total_chunks ≡ t.total_chunks
      → contains t.received m.index ≡ false
      → tools.decode_chunk m.content ≡ some (slice content t.chunk_size m.index)
      → chunk tools r m ≡ store tools r t m.index (slice content t.chunk_size m.index)
  unfolding chunk chunk_found decoded is_receiving
  chunk_stored r m content t f s v l e new d =
      let size = slice_expected content t m.index v l in
      rw (f, d) (ground (arith, s, e, l, new, size))

-- The file that the sender has: its id, its content and how it is cut.
pub record Source : Type 0 where
  pub id : String
  pub content : Bytes
  pub chunk_size : ℕ
  pub total_chunks : ℕ

-- A message that carries a chunk of the file.
pub record IsChunkOf (tools : Tools) (f : Source) (m : FileChunk) : Type 0 where
  pub same_id : m.file_id ≡ f.id
  pub same_total : m.total_chunks ≡ f.total_chunks
  pub in_range : m.index < f.total_chunks
  pub part : tools.decode_chunk m.content ≡ some (slice f.content f.chunk_size m.index)

-- A transfer of the file that is under way, with the chunks at `seen` there.
pub record IsRunning (tools : Tools) (f : Source) (seen : List ℕ) (t : ReceiveTransfer)
    : Type 0 where
  pub id : t.file_id ≡ f.id
  pub cut : t.chunk_size ≡ f.chunk_size
  pub total : t.total_chunks ≡ f.total_chunks
  pub under_way : t.status ≡ receiving
  pub digest : digest_matches tools t.sha256 f.content ≡ true
  pub copying : IsCopying f.content t
  pub open_yet : length t.received < t.total_chunks
  pub has : (i : ℕ) → contains seen i ≡ true → contains t.received i ≡ true

pub record IsDone (f : Source) (t : ReceiveTransfer) : Type 0 where
  pub over : t.status ≡ completed
  pub result : t.blob ≡ some f.content

-- The receiver is at the file, or has it.
abbrev pub Progress : Tools → Source → List ℕ → FileReceiver → Type 0
Progress tools f seen r =
    (t : ReceiveTransfer) × (find f.id r.transfers ≡ some t)
    × (IsRunning tools f seen t ⊎ IsDone f t)

abbrev pub indices : List FileChunk → List ℕ
indices [] = []
indices (m ∷ ms) = m.index ∷ indices ms

module _ (tools : Tools) (f : Source) where
  unfoldable pub chunks : FileReceiver → List FileChunk → FileReceiver
  chunks r [] = r
  chunks r (m ∷ ms) = chunks (chunk tools r m).0 ms

  pub find-put :
      (r : FileReceiver) (t : ReceiveTransfer)
      → t.file_id ≡ f.id
      → find f.id (put r t).transfers ≡ some t
  find-put r t e =
      subst (λ k. find k (insert t.file_id t r.transfers) ≡ some t) e
        (find-insert_self t.file_id t r.transfers)

  -- The bookkeeping of a chunk that has just been stored.
  IsRunning-after :
      (seen : List ℕ) (t : ReceiveTransfer) (m : FileChunk)
      → IsRunning tools f seen t
      → IsChunkOf tools f m
      → contains t.received m.index ≡ false
      → let kept = stored t m.index (slice f.content t.chunk_size m.index) in
        length kept.received < kept.total_chunks → IsRunning tools f (m.index ∷ seen) kept
  unfolding stored contains
  IsRunning-after seen t m v c new l = record {
    id = v.id;
    cut = v.cut;
    total = v.total;
    under_way = v.under_way;
    digest = v.digest;
    copying =
        stored-IsCopying f.content t m.index v.copying (omega (arith, c.in_range, v.total)) new;
    open_yet = l;
    has = λ i h.
        let apart = contains-append t.received m.index i in
        elim (Bool-cases (contains seen i)) [
          | inl s ↦ let old = v.has i s in ground (arith, apart, old)
          | inr s ↦ ground (arith, apart, h, s)
        ];
  }

  -- A chunk after the end, and one that is there, change nothing.
  chunk_over :
      (r : FileReceiver) (t : ReceiveTransfer) (m : FileChunk)
      → find m.file_id r.transfers ≡ some t
      → t.status ≡ completed
      → (chunk tools r m).0 ≡ r
  unfolding chunk chunk_found is_receiving
  chunk_over r t m e s = rw e (ground (arith, s))

  chunk_again :
      (r : FileReceiver) (t : ReceiveTransfer) (m : FileChunk)
      → find m.file_id r.transfers ≡ some t
      → contains t.received m.index ≡ true
      → (chunk tools r m).0 ≡ r
  unfolding chunk chunk_found
  chunk_again r t m e s = rw e (ground (arith, s))

  has_again :
      (seen : List ℕ) (t : ReceiveTransfer) (i : ℕ)
      → IsRunning tools f seen t
      → contains t.received i ≡ true
      → IsRunning tools f (i ∷ seen) t
  unfolding contains
  has_again seen t i v h = record {
    id = v.id;
    cut = v.cut;
    total = v.total;
    under_way = v.under_way;
    digest = v.digest;
    copying = v.copying;
    open_yet = v.open_yet;
    has = λ j k. elim (Bool-cases (contains seen j)) [
      | inl s ↦ v.has j s
      | inr s ↦ let same : j ≡ i = ground (arith, k, s) in rw same h
    ];
  }

  store_full :
      (r : FileReceiver) (t : ReceiveTransfer) (i : ℕ) (b : Bytes)
      → (length (stored t i b).received == t.total_chunks) ≡ true
      → (store tools r t i b).0 ≡ (complete tools (put r (stored t i b)) (stored t i b)).0
  unfolding store
  store_full r t i b h = ground (arith, h)

  store_part :
      (r : FileReceiver) (t : ReceiveTransfer) (i : ℕ) (b : Bytes)
      → (length (stored t i b).received == t.total_chunks) ≡ false
      → (store tools r t i b).0 ≡ put r (stored t i b)
  unfolding store
  store_part r t i b h = ground (arith, h)

  finished-IsDone : (t : ReceiveTransfer) → IsDone f (finished t f.content)
  unfolding finished
  finished-IsDone t = record { over = refl; result = refl }

  finished_id : (t : ReceiveTransfer) → (finished t f.content).file_id ≡ t.file_id
  unfolding finished
  finished_id t = refl

  stored_lem :
      (t : ReceiveTransfer) (i : ℕ) (b : Bytes)
      → ((stored t i b).file_id ≡ t.file_id)
        × ((stored t i b).total_chunks ≡ t.total_chunks)
        × ((stored t i b).sha256 ≡ t.sha256)
        × (length (stored t i b).received ≡ length t.received + 1)
  unfolding stored
  stored_lem t i b = (refl, refl, refl, length-append t.received (i ∷ []))

  stored-Progress :
      (seen : List ℕ) (r : FileReceiver) (t : ReceiveTransfer) (m : FileChunk)
      → IsRunning tools f seen t
      → IsChunkOf tools f m
      → contains t.received m.index ≡ false
      → Progress tools f
          (m.index ∷ seen)
          (store tools r t m.index (slice f.content t.chunk_size m.index)).0
  stored-Progress seen r t m v c new =
      let kept = stored t m.index (slice f.content t.chunk_size m.index) in
      let shape = stored_lem t m.index (slice f.content t.chunk_size m.index) in
      let inside : m.index < t.total_chunks = omega (arith, c.in_range, v.total) in
      let copying = stored-IsCopying f.content t m.index v.copying inside new in
      elim (Bool-cases (length kept.received == t.total_chunks)) [
        | inl s ↦
            let complete_now =
              complete_whole tools (put r kept) f.content kept copying
                (omega (arith, (==_iff _ _).0 s, shape.1)) (rw (shape.2) (v.digest)) in
            rw (store_full r t m.index _ s, complete_now)
              (
                finished kept f.content,
                find-put (put r kept) (finished kept f.content)
                    (finished_id kept ∙ (shape.0 ∙ v.id)),
                inr (finished-IsDone kept),
              )
        | inr s ↦ rw (store_part r t m.index _ s) (
          kept,
          find-put r kept (shape.0 ∙ v.id),
          inl (IsRunning-after seen t m v c new (ground (arith, s, shape.1, shape.3, v.open_yet))),
        )
      ]

  step-Progress :
      (seen : List ℕ) (r : FileReceiver) (m : FileChunk)
      → IsChunkOf tools f m
      → Progress tools f seen r
      → Progress tools f (m.index ∷ seen) (chunk tools r m).0
  step-Progress seen r m c (t, e, inr d) =
      let at : find m.file_id r.transfers ≡ some t = rw (c.same_id) e in
      rw (chunk_over r t m at d.over) (t, e, inr d)
  step-Progress seen r m c (t, e, inl v) =
      let at : find m.file_id r.transfers ≡ some t = rw (c.same_id) e in
      elim (Bool-cases (contains t.received m.index)) [
        | inl old ↦ rw (chunk_again r t m at old) (t, e, inl (has_again seen t m.index v old))
        | inr new ↦
            let part : tools.decode_chunk m.content ≡ some (slice f.content t.chunk_size m.index) =
              rw (v.cut) (c.part) in
            rw
              (chunk_stored tools r m f.content t at v.under_way v.copying
                (omega (arith, c.in_range, v.total)) (c.same_total ∙ sym v.total) new part)
              (stored-Progress seen r t m v c new)
      ]

  chunks-Progress :
      (seen : List ℕ) (r : FileReceiver) (ms : List FileChunk)
      → All (IsChunkOf tools f) ms
      → Progress tools f seen r
      → (later : List ℕ) × Progress tools f later (chunks r ms)
        × ((i : ℕ) → (contains seen i || contains (indices ms) i) ≡ true → contains later i ≡ true)
  unfolding chunks contains
  chunks-Progress seen r [] a p = (seen, p, λ i h. ground (arith, h))
  chunks-Progress seen r (m ∷ ms) a p =
      let (later, q, k) =
        chunks-Progress (m.index ∷ seen) (chunk tools r m).0 ms a.1
          (step-Progress seen r m a.0 p) in
      (later, q, λ i h. k i (ground (arith, h)))

  -- The chunks of a file, in whatever order and however often, complete a transfer of that file if
  -- they include every index: the receiver then holds exactly the file's content.
  pub chunks_complete :
      (r : FileReceiver) (ms : List FileChunk)
      → Progress tools f [] r
      → All (IsChunkOf tools f) ms
      → ((i : ℕ) → i < f.total_chunks → contains (indices ms) i ≡ true)
      → (t : ReceiveTransfer) × (find f.id (chunks r ms).transfers ≡ some t)
        × (t.status ≡ completed)
        × (t.blob ≡ some f.content)
  unfolding contains
  chunks_complete r ms p a h =
      let (later, (t, e, q), k) = chunks-Progress [] r ms a p in
      elim q [
        | inr d ↦ (t, e, d.over, d.result)
        | inl v ↦
            let all =
              received_all f.content t v.copying
                (λ i l. v.has i (k i (h i (omega (arith, v.total))))) in
            absurd (omega (arith, all, v.open_yet))
      ]
