-- ===== src/Files/Receiver/Copy.antt =====
-- A file that arrives in chunks: `IsCopying` says that what is there so far is part of the file.
use native.Mathlib.Nat
use onlytwo.Base.{
  contains, contains-append, ◌≢◌, ℕ, suc, zero, ◌+◌, ◌-◌, ◌*◌, ◌≤◌, ◌<◌, ◌≡◌, ◌∙◌, refl, ap, sym,
  subst, true, false, Option, none, some, List, [], ◌∷◌, ltb, ◌==◌, if◌then◌else◌, length, set,
  get_or, take, drop, Bytes, arith, min, length-take, length-drop, length-set, length-append,
  drop-add, take-append-drop, Bool-cases, inl, inr,
}
use onlytwo.Files.Receiver.{ReceiveTransfer}
use onlytwo.Files.Receiver.Chunks.{blob_of, has_expected_bytes, stored}

-- The chunk at an index.
abbrev pub slice : Bytes → ℕ → ℕ → Bytes
slice content chunk_size index = take chunk_size (drop (index * chunk_size) content)

-- How many places of the array are filled.
abbrev pub filled : List (Option Bytes) → ℕ
filled [] = 0
filled (none ∷ rest) = filled rest
filled (some _ ∷ rest) = suc (filled rest)

pub record IsCopying (content : Bytes) (t : ReceiveTransfer) : Type 0 where
  pub whole : length content ≡ t.size
  pub enough : t.size ≤ t.total_chunks * t.chunk_size
  pub needed : (i : ℕ) → i < t.total_chunks → i * t.chunk_size < t.size
  pub shape : length t.chunks ≡ t.total_chunks
  pub counted : length t.received ≡ filled t.chunks
  pub empty : (i : ℕ) → contains t.received i ≡ false → get_or t.chunks i none ≡ none
  pub known : (i : ℕ) → contains t.received i ≡ true → get_or t.chunks i none ≢ none
  pub copied :
      (i : ℕ) (b : Bytes) → get_or t.chunks i none ≡ some b → b ≡ slice content t.chunk_size i

pub filled-le : (cs : List (Option Bytes)) → filled cs ≤ length cs
filled-le [] = omega arith
filled-le (none ∷ cs) = omega (arith, filled-le cs)
filled-le (some b ∷ cs) = omega (arith, filled-le cs)

filled-set :
    (cs : List (Option Bytes)) (i : ℕ) (b : Bytes)
    → i < length cs
    → get_or cs i none ≡ none
    → filled (set cs i (some b)) ≡ suc (filled cs)
filled-set [] i b h e = absurd (omega arith)
filled-set (none ∷ cs) zero b h e = refl
filled-set (some c ∷ cs) zero b h e = absurd (impossible e)
  where
    impossible : some c ≡ none → ⊥
    impossible e = cc
filled-set (none ∷ cs) (suc i) b h e = filled-set cs i b (omega arith) e
filled-set (some c ∷ cs) (suc i) b h e = ap suc (filled-set cs i b (omega arith) e)

drop-all : (n : ℕ) (xs : Bytes) → length xs ≤ n → drop n xs ≡ []
drop-all zero [] h = refl
drop-all zero (x ∷ xs) h = absurd (omega arith)
drop-all (suc n) [] h = refl
drop-all (suc n) (x ∷ xs) h = drop-all n xs (omega arith)

get_or-set :
    (cs : List (Option Bytes)) (i j : ℕ) (b : Bytes)
    → get_or (set cs i (some b)) j none
      ≡ (if i == j then (if ltb i (length cs) then some b else none) else get_or cs j none)
get_or-set [] i j b = ground arith
get_or-set (c ∷ cs) zero zero b = ground arith
get_or-set (c ∷ cs) zero (suc j) b = ground arith
get_or-set (c ∷ cs) (suc i) zero b = ground arith
get_or-set (c ∷ cs) (suc i) (suc j) b = ground (arith, get_or-set cs i j b)

module _ (content : Bytes) (c : ℕ) where
  -- Once all places from index `i` on are filled, the blob of them is the rest of the file.
  blob_rest :
      (rest : List (Option Bytes)) (i total : ℕ)
      → i + length rest ≡ total
      → length content ≤ total * c
      → filled rest ≡ length rest
      → ((j : ℕ) (b : Bytes) → get_or rest j none ≡ some b → b ≡ slice content c (i + j))
      → blob_of rest ≡ drop (i * c) content
  unfolding blob_of
  blob_rest [] i total e l f k =
      let same : i ≡ total = omega arith in
      sym (drop-all (i * c) content (subst (λ n. length content ≤ n * c) (sym same) l))
  blob_rest (none ∷ rest) i total e l f k = absurd (omega (arith, filled-le rest))
  blob_rest (some b ∷ rest) i total e l f k =
      let first : b ≡ slice content c i =
        k 0 b refl ∙ ap (slice content c) (let z : i + 0 ≡ i = omega arith in z) in
      let after = blob_rest rest (suc i) total (omega arith) l (omega arith) (λ j d h.
        k (suc j) d h ∙ ap (slice content c) (let z : i + suc j ≡ suc i + j = omega arith in z)) in
      let next : suc i * c ≡ i * c + c = Nat.suc-mul i c in
      rw (after, first, next, drop-add (i * c) c content)
        (take-append-drop c (drop (i * c) content))

pub blob_whole :
    (content : Bytes) (t : ReceiveTransfer)
    → IsCopying content t
    → length t.received ≡ t.total_chunks
    → blob_of t.chunks ≡ content
blob_whole content t v h =
    let start : 0 * t.chunk_size ≡ 0 = omega arith in
    blob_rest content t.chunk_size t.chunks 0 t.total_chunks (omega (arith, v.shape))
      (omega (arith, v.whole, v.enough)) (omega (arith, v.counted, v.shape))
      (λ j b e.
        v.copied j b e ∙ ap (slice content t.chunk_size) (let z : j ≡ 0 + j = omega arith in z))
    ∙ ap (λ n. drop n content) start

length-slice :
    (content : Bytes) (c i : ℕ) → length (slice content c i) ≡ min c (length content - i * c)
length-slice content c i =
    omega (arith, length-take c (drop (i * c) content), length-drop (i * c) content)

-- A slice has the length that the receiver expects at its index.
pub slice_expected :
    (content : Bytes) (t : ReceiveTransfer) (i : ℕ)
    → IsCopying content t
    → i < t.total_chunks
    → has_expected_bytes t i (slice content t.chunk_size i) ≡ true
unfolding has_expected_bytes
slice_expected content t i v h =
    let c = t.chunk_size in
    let size = length-slice content c i in
    let next = Nat.suc-mul i c in
    elim (Bool-cases (i == t.total_chunks - 1)) [
      | inl e ↦
          let last : suc i ≡ t.total_chunks = ground arith in
          let upper : t.size ≤ suc i * c = subst (λ n. t.size ≤ n * c) (sym last) v.enough in
          let lower = v.needed i h in rw e (ground (arith, size, next, upper, lower, v.whole))
      | inr e ↦
          let inner : suc i < t.total_chunks = ground arith in
          let lower = v.needed (suc i) inner in rw e (ground (arith, size, next, lower, v.whole))
    ]

some-not-none : {b : Bytes} → some b ≡ none → ⊥
some-not-none e = cc

pub stored-IsCopying :
    (content : Bytes) (t : ReceiveTransfer) (i : ℕ)
    → IsCopying content t
    → i < t.total_chunks
    → contains t.received i ≡ false
    → IsCopying content (stored t i (slice content t.chunk_size i))
unfolding stored
stored-IsCopying content t i v h new = record {
  whole = v.whole;
  enough = v.enough;
  needed = v.needed;
  shape = length-set t.chunks i _ ∙ v.shape;
  counted = omega (
    arith,
    length-append t.received (i ∷ []),
    filled-set t.chunks i (slice content t.chunk_size i) (omega (arith, v.shape)) (v.empty i new),
    v.counted,
  );
  empty = λ j e.
      let apart = contains-append t.received i j in
      let split = get_or-set t.chunks i j (slice content t.chunk_size i) in
      let before : contains t.received j ≡ false = ground (arith, e, apart) in
      let old = v.empty j before in ground (arith, e, apart, split, old);
  known = λ j e.
      let apart = contains-append t.received i j in
      let split = get_or-set t.chunks i j (slice content t.chunk_size i) in
      let inside : i < length t.chunks = omega (arith, v.shape) in
      elim (Bool-cases (i == j)) [
        | inl s ↦ λ n.
            absurd (
              some-not-none {b = slice content t.chunk_size i}
                (ground (arith, split, s, inside, n)))
        | inr s ↦ λ n. v.known j (ground (arith, apart, s, e)) (ground (arith, split, s, n))
      ];
  copied = λ j b e.
      let split = get_or-set t.chunks i j (slice content t.chunk_size i) in
      elim (Bool-cases (i == j)) [
        | inl s ↦
            let same : i ≡ j = ground arith in
            let inside : i < length t.chunks = omega (arith, v.shape) in
            let here : some (slice content t.chunk_size i) ≡ some b =
              ground (arith, split, e, s, inside) in
            let b_is : b ≡ slice content t.chunk_size i = cc in
            b_is ∙ ap (slice content t.chunk_size) same
        | inr s ↦ v.copied j b (ground (arith, split, e, s))
      ];
}

filled_all :
    (cs : List (Option Bytes))
    → ((i : ℕ) → i < length cs → get_or cs i none ≢ none)
    → filled cs ≡ length cs
filled_all [] h = refl
filled_all (none ∷ cs) h = absurd (h 0 (omega arith) refl)
filled_all (some b ∷ cs) h = ap suc (filled_all cs (λ i l. h (suc i) (omega arith)))

-- A transfer that has every chunk counts as many as there are.
pub received_all :
    (content : Bytes) (t : ReceiveTransfer)
    → IsCopying content t
    → ((i : ℕ) → i < t.total_chunks → contains t.received i ≡ true)
    → length t.received ≡ t.total_chunks
received_all content t v h =
    let all = filled_all t.chunks (λ i l. v.known i (h i (omega (arith, v.shape)))) in
    omega (arith, all, v.counted, v.shape)
