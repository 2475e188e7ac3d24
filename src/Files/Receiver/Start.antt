-- ===== src/Files/Receiver/Start.antt =====
-- From an offer to the file.
use native.Mathlib.Nat
use native.Mathlib.Omega.{div_any}
use onlytwo.Base.{
  contains, ℕ, suc, zero, ◌+◌, ◌-◌, ◌*◌, ◌/◌, ◌≤◌, ◌<◌, ◌≡◌, ◌∙◌, refl, sym, subst, true, false,
  Option, none, some, List, [], length, get_or, replicate, length-replicate, Bytes, arith, inl, All,
}
use onlytwo.Base.Dict.{find, find-insert_self}
use onlytwo.Config.Profile.{TransportProfile}
use onlytwo.Protocol.Messages.{FileOffer, FileChunk}
use onlytwo.Files.Receiver.{
  Tools, FileReceiver, ReceiveTransfer, completed, put, offer, accept, is_too_large,
  has_bad_metadata, ceil_div, expected_chunks, offer_over, admit, has_other_active,
  offered_transfer, accept_found, accepted, is_offered,
}
use onlytwo.Files.Receiver.Chunks.{digest_matches}
use onlytwo.Files.Receiver.Copy.{filled}
use onlytwo.Files.Receiver.Whole.{
  find-put, Source, IsChunkOf, Progress, IsRunning, chunks, chunks_complete, indices,
}

pub new : TransportProfile → FileReceiver
new profile = record { transfers = []; profile = profile }

-- The number of chunks is enough for the file, and no more than it needs.
ceil_div_lem : (n d : ℕ) → 1 ≤ d → (n ≤ ceil_div n d * d) × ((i : ℕ) → i < ceil_div n d → i * d < n)
unfolding ceil_div
ceil_div_lem n d h =
    let q = (n + (d - 1)) / d in
    let whole = div_any (n + (d - 1)) d in
    let rest = Nat.mod-lt (n + (d - 1)) {m = d} (omega arith) in
    let turned = Nat.mul_comm d q in
    (
      omega (arith, whole, rest, turned),
      λ i l.
          let below = Nat.mul-le-mul_right d (let s : suc i ≤ q = omega arith in s) in
          omega (arith, whole, rest, turned, below, Nat.suc-mul i d),
    )

filled-replicate : (n : ℕ) → filled (replicate n none) ≡ 0
filled-replicate zero = refl
filled-replicate (suc n) = filled-replicate n

get_or-replicate : (n i : ℕ) → get_or {A = Option Bytes} (replicate n none) i none ≡ none
get_or-replicate zero i = refl
get_or-replicate (suc n) zero = refl
get_or-replicate (suc n) (suc i) = get_or-replicate n i

-- What an offer says of the file.
pub record IsOfferOf (tools : Tools) (f : Source) (m : FileOffer) : Type 0 where
  pub same_id : m.file_id ≡ f.id
  pub same_size : length f.content ≡ m.size
  pub same_cut : m.chunk_size ≡ f.chunk_size
  pub same_total : m.total_chunks ≡ f.total_chunks
  pub same_digest : digest_matches tools m.sha256 f.content ≡ true

module _ (tools : Tools) (profile : TransportProfile) (m : FileOffer) where
  offer-new :
      is_too_large profile m ≡ false
      → has_bad_metadata profile m ≡ false
      → (offer tools (new profile) m).0 ≡ put (new profile) (offered_transfer tools m)
  unfolding offer offer_over admit new find has_other_active
  offer-new a b = rw (a, b) refl

  accept-new :
      (r : FileReceiver) (t : ReceiveTransfer)
      → find m.file_id r.transfers ≡ some t
      → is_offered t.status ≡ true
      → (accept r m.file_id true).0 ≡ put r (accepted t)
  unfolding accept accept_found
  accept-new r t e s = rw e (ground (arith, s))

  metadata :
      has_bad_metadata profile m ≡ false
      → (1 ≤ m.chunk_size) × (1 ≤ m.total_chunks) × (m.total_chunks ≡ ceil_div m.size m.chunk_size)
  unfolding has_bad_metadata expected_chunks
  metadata h = ground arith

  pub started-IsRunning :
      (f : Source)
      → IsOfferOf tools f m
      → has_bad_metadata profile m ≡ false
      → IsRunning tools f [] (accepted (offered_transfer tools m))
  unfolding offered_transfer contains
  started-IsRunning f o b =
      let (c, total, ceil) = metadata b in
      let (enough, needed) = ceil_div_lem m.size m.chunk_size c in
      record {
        id = o.same_id;
        cut = o.same_cut;
        total = o.same_total;
        under_way = refl;
        digest = o.same_digest;
        copying = record {
          whole = o.same_size;
          enough = subst (λ n. m.size ≤ n * m.chunk_size) (sym ceil) enough;
          needed = λ i l. needed i (omega (arith, ceil));
          shape = length-replicate m.total_chunks none;
          counted = sym (filled-replicate m.total_chunks);
          empty = λ i e. get_or-replicate m.total_chunks i;
          known = λ i e. absurd (impossible e);
          copied = λ i b e. absurd (not_there b (sym (get_or-replicate m.total_chunks i) ∙ e));
        };
        open_yet = total;
        has = λ i e. absurd (impossible e);
      }
    where
      impossible : false ≡ true → ⊥
      impossible e = cc

      not_there : (b : Bytes) → none ≡ some b → ⊥
      not_there b e = cc

-- A file that is offered to a new receiver within the limits of its profile, accepted, and sent in
-- chunks, in any order and with repetitions, but every index at least once, ends up completed with
-- exactly the content that the sender has, if its digest is right or left out.
pub file_received :
    (tools : Tools) (profile : TransportProfile) (m : FileOffer) (f : Source) (ms : List FileChunk)
    → is_too_large profile m ≡ false
    → has_bad_metadata profile m ≡ false
    → IsOfferOf tools f m
    → All (IsChunkOf tools f) ms
    → ((i : ℕ) → i < f.total_chunks → contains (indices ms) i ≡ true)
    → let accepted_receiver = (accept (offer tools (new profile) m).0 m.file_id true).0 in
      (t : ReceiveTransfer) × (find f.id (chunks tools f accepted_receiver ms).transfers ≡ some t)
      × (t.status ≡ completed)
      × (t.blob ≡ some f.content)
unfolding offered_transfer is_offered new
file_received tools profile m f ms a b o cs h =
    let t = offered_transfer tools m in
    let first = offer-new tools profile m a b in
    let found : find m.file_id (put (new profile) t).transfers ≡ some t =
      find-insert_self m.file_id t [] in
    let second = accept-new tools profile m (put (new profile) t) t found refl in
    let start : Progress tools f [] (put (put (new profile) t) (accepted t)) = (
      accepted t,
      find-put tools f (put (new profile) t) (accepted t) o.same_id,
      inl (started-IsRunning tools profile m f o b),
    ) in
    chunks_complete tools f (accept (offer tools (new profile) m).0 m.file_id true).0 ms
      (rw (first, second) start) cs h
