-- ===== src/Crypto/Padding.antt =====
-- The padding of client/src/crypto/cryptoWorker.ts: `selectPaddingBucket`, `buildPlaintext`,
-- `parsePlaintext`. The random filling, what `crypto.getRandomValues` writes, is an argument.
use mathlib.Core.Option
use onlytwo.Base.{
  Bool-cases, inl, inr, Option-cases, ℕ, ◌+◌, ◌-◌, ◌≤◌, ◌<◌, ◌≡◌, ◌^◌, refl, Bool, true, false,
  ◌||◌, Option, none, some, List, [], ◌∷◌, ◌++◌, ltb, leb, ◌==◌, if◌then◌else◌, length, take, drop,
  Bytes, be32, of_be32, of_be32-be32, arith, ap, ◌∙◌, length-append, length-drop,
  take-length_append, sym,
}

unfoldable pub insert_number : ℕ → List ℕ → List ℕ
insert_number n [] = n ∷ []
insert_number n (m ∷ ms) = if leb n m then n ∷ m ∷ ms else m ∷ insert_number n ms

-- `[...buckets].sort((a, b) => a - b)`
unfoldable pub sort_numbers : List ℕ → List ℕ
sort_numbers [] = []
sort_numbers (n ∷ ns) = insert_number n (sort_numbers ns)

unfoldable pub first_bucket : ℕ → List ℕ → Option ℕ
first_bucket needed [] = none
first_bucket needed (b ∷ bs) = if leb needed b then some b else first_bucket needed bs

-- `none` is "Payload too large for selected profile".
unfoldable pub select_padding_bucket : List ℕ → ℕ → Option ℕ
select_padding_bucket buckets actual_bytes = first_bucket (actual_bytes + 4) (sort_numbers buckets)

-- `setUint32` and `set` on the random bytes.
abbrev pub fill : Bytes → Bytes → Bytes
fill actual out = be32 (length actual) ++ (actual ++ drop (4 + length actual) out)

-- `crypto.getRandomValues` throws QuotaExceededError for more bytes than this.
abbrev pub random_quota : ℕ
random_quota = 65536

-- `randomBytes` of client/src/utils/bytes.ts
unfoldable pub draw : (ℕ → Bytes) → ℕ → Option Bytes
draw random_bytes n = if ltb random_quota n then none else some (random_bytes n)

filled : (ℕ → Bytes) → Bytes → Option ℕ → Option Bytes
filled random_bytes actual none = none
filled random_bytes actual (some bucket) = Option.map (fill actual) (draw random_bytes bucket)

-- `none` is the error of either part: no bucket is large enough, or the quota is exceeded.
unfoldable pub build_plaintext : (ℕ → Bytes) → List ℕ → Bytes → Option Bytes
unfolding filled
build_plaintext random_bytes buckets actual =
    filled random_bytes actual (select_padding_bucket buckets (length actual))

unfoldable pub includes : List ℕ → ℕ → Bool
includes [] n = false
includes (b ∷ bs) n = b == n || includes bs n

-- `getUint32(0, false)`, which throws on fewer than four bytes.
unfoldable pub plaintext_length : Bytes → Option ℕ
plaintext_length (a ∷ b ∷ c ∷ d ∷ _) = some (of_be32 a b c d)
plaintext_length _ = none

unwrap_plaintext : Bytes → Option ℕ → Option Bytes
unwrap_plaintext padded none = none
unwrap_plaintext padded (some n) =
    if ltb (length padded - 4) n then none else some (take n (drop 4 padded))

-- `none` is one of its three errors.
unfoldable pub parse_plaintext : List ℕ → Bytes → Option Bytes
unfolding unwrap_plaintext
parse_plaintext buckets padded =
    if includes buckets (length padded)
    then unwrap_plaintext padded (plaintext_length padded)
    else none

includes-insert_number :
    (n m : ℕ) (ms : List ℕ) → includes (insert_number n ms) m ≡ (n == m || includes ms m)
unfolding includes insert_number
includes-insert_number n m [] = refl
includes-insert_number n m (k ∷ ks) = ground (arith, includes-insert_number n m ks)

includes-sort_numbers : (ns : List ℕ) (m : ℕ) → includes (sort_numbers ns) m ≡ includes ns m
unfolding sort_numbers includes
includes-sort_numbers [] m = refl
includes-sort_numbers (n ∷ ns) m =
    includes-insert_number n m (sort_numbers ns)
    ∙ ap (λ b. n == m || b) (includes-sort_numbers ns m)

first_bucket_lem :
    (k : ℕ) (bs : List ℕ) {b : ℕ} → first_bucket k bs ≡ some b → (k ≤ b) × (includes bs b ≡ true)
unfolding first_bucket includes
first_bucket_lem k [] h = cc
first_bucket_lem k (c ∷ bs) {b} h = ground (arith, first_bucket_lem k bs {b = b})

-- The bucket selected is one of the buckets, and holds the data and its four-byte length.
pub select_padding_bucket_lem :
    (buckets : List ℕ) (n : ℕ) {b : ℕ}
    → select_padding_bucket buckets n ≡ some b
    → (n + 4 ≤ b) × (includes buckets b ≡ true)
unfolding select_padding_bucket
select_padding_bucket_lem buckets n {b} h =
    let (fits, has) = first_bucket_lem (n + 4) (sort_numbers buckets) h in
    (fits, sym (includes-sort_numbers buckets b) ∙ has)

length-fill :
    (actual out : Bytes) → length actual + 4 ≤ length out → length (fill actual out) ≡ length out
length-fill actual out l = omega (
  arith,
  length-append actual (drop (4 + length actual) out),
  length-drop (4 + length actual) out,
)

some-injective {ℓ} : {A : Type ℓ} (a b : A) → some a ≡ some b → a ≡ b
some-injective a b h = cc

ltb-false : (a b : ℕ) → b ≤ a → ltb a b ≡ false
ltb-false a b h = ground arith

parse-fill :
    (buckets : List ℕ) (actual out : Bytes)
    → length actual < 2 ^ 32
    → length actual + 4 ≤ length out
    → includes buckets (length out) ≡ true
    → parse_plaintext buckets (fill actual out) ≡ some actual
unfolding parse_plaintext plaintext_length
parse-fill buckets actual out l fits has =
    let size = length-fill actual out fits in
    let known : includes buckets (length (fill actual out)) ≡ true = rw size has in
    let whole : plaintext_length (fill actual out) ≡ some (length actual) =
      ap some (of_be32-be32 (length actual) l) in
    let enough : ltb (length (fill actual out) - 4) (length actual) ≡ false =
      rw size (ltb-false (length out - 4) (length actual) (omega arith)) in
    let padded = fill actual out in
    ap (λ t. if t then unwrap_plaintext padded (plaintext_length padded) else none) known
    ∙ (ap (unwrap_plaintext padded) whole
        ∙ (ap (λ t. if t then none else some (take (length actual) (drop 4 padded))) enough
            ∙ ap some (take-length_append actual (drop (4 + length actual) out))))

-- What was padded is the data in a bucket of random bytes.
filled_lem :
    (random_bytes : ℕ → Bytes) (actual padded : Bytes) (b : ℕ)
    → filled random_bytes actual (some b) ≡ some padded
    → fill actual (random_bytes b) ≡ padded
unfolding filled draw
filled_lem r actual padded b e = elim (Bool-cases (ltb random_quota b)) [
  | inl large ↦ absurd (impossible (rw large at e))
  | inr small ↦ some-injective _ _ (rw small at e)
]
  where
    impossible : none ≡ some padded → ⊥
    impossible e = cc

-- Data that was padded to a bucket is read back, whatever the random filling.
pub parse-build :
    (random_bytes : ℕ → Bytes) (buckets : List ℕ) (actual padded : Bytes)
    → ((n : ℕ) → length (random_bytes n) ≡ n)
    → length actual < 2 ^ 32
    → build_plaintext random_bytes buckets actual ≡ some padded
    → parse_plaintext buckets padded ≡ some actual
unfolding build_plaintext filled
parse-build r buckets actual padded h l e =
    elim (Option-cases (select_padding_bucket buckets (length actual))) [
      | inl none_fits ↦ absurd (impossible (rw none_fits at e))
      | inr (b, chosen) ↦
          let same : fill actual (r b) ≡ padded = filled_lem r actual padded b (rw chosen at e) in
          let (fits, has) = select_padding_bucket_lem buckets (length actual) chosen in
          rw (← same) (parse-fill buckets actual (r b) l (rw (h b) fits) (rw (h b) has))
    ]
  where
    impossible : none ≡ some padded → ⊥
    impossible e = cc

-- Data that needs a bucket above the quota is never padded.
pub build-large :
    (random_bytes : ℕ → Bytes) (buckets : List ℕ) (actual : Bytes)
    → random_quota < length actual + 4
    → build_plaintext random_bytes buckets actual ≡ none
unfolding build_plaintext filled draw
build-large r buckets actual h =
    elim (Option-cases (select_padding_bucket buckets (length actual))) [
      | inl none_fits ↦ rw none_fits refl
      | inr (b, chosen) ↦
          let (fits, _) = select_padding_bucket_lem buckets (length actual) chosen in
          let large : ltb random_quota b ≡ true = ground arith in rw chosen (rw large refl)
    ]
