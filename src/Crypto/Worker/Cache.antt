-- ===== src/Crypto/Worker/Cache.antt =====
-- The cache of skipped message keys as a map.
use onlytwo.Base.{
  ℕ, suc, zero, ◌+◌, ◌≤◌, ◌<◌, ◌≡◌, refl, none, some, [], ◌∷◌, ◌⊎◌, ◌==◌, if◌then◌else◌, Bytes,
  arith,
}
use onlytwo.Crypto.Platform.{Platform}
use onlytwo.Crypto.Worker.{
  KeyCache, cache_get, cache_set, cache_delete, evict, cache_skipped, skip_keys, derive_step,
}

-- No counter has two entries.
abbrev pub IsDistinct : KeyCache → Type 0
IsDistinct [] = Unit {0}
IsDistinct ((c, k) ∷ m) = (cache_get c m ≡ none) × IsDistinct m

pub get-set :
    (c d : ℕ) (k : Bytes) (m : KeyCache)
    → cache_get c (cache_set d k m) ≡ (if c == d then some k else cache_get c m)
unfolding cache_get cache_set
get-set c d k [] = refl
get-set c d k ((e, j) ∷ m) = ground (arith, get-set c d k m)

pub get-evict : (c n : ℕ) (m : KeyCache) → cache_get c m ≡ none → cache_get c (evict n m) ≡ none
unfolding cache_get evict
get-evict c n [] h = refl
get-evict c n ((e, j) ∷ m) h = ground (arith, get-evict c n m)

pub get-delete :
    (c d : ℕ) (m : KeyCache) → cache_get c m ≡ none → cache_get c (cache_delete d m) ≡ none
unfolding cache_get cache_delete
get-delete c d [] h = refl
get-delete c d ((e, j) ∷ m) h = ground (arith, get-delete c d m)

pub get-delete_self : (c : ℕ) (m : KeyCache) → IsDistinct m → cache_get c (cache_delete c m) ≡ none
unfolding cache_get cache_delete
get-delete_self c [] d = refl
get-delete_self c ((e, j) ∷ m) d = ground (arith, get-delete_self c m)

set-IsDistinct : (c : ℕ) (k : Bytes) (m : KeyCache) → IsDistinct m → IsDistinct (cache_set c k m)
unfolding cache_get cache_set
set-IsDistinct c k [] d = (refl, tt)
set-IsDistinct c k ((e, j) ∷ m) d = ground (arith, set-IsDistinct c k m d.1, get-set e c k m)

evict-IsDistinct : (n : ℕ) (m : KeyCache) → IsDistinct m → IsDistinct (evict n m)
unfolding evict
evict-IsDistinct n [] d = tt
evict-IsDistinct n ((e, j) ∷ m) d = ground (arith, evict-IsDistinct n m d.1)

pub delete-IsDistinct : (c : ℕ) (m : KeyCache) → IsDistinct m → IsDistinct (cache_delete c m)
unfolding cache_delete
delete-IsDistinct c [] d = tt
delete-IsDistinct c ((e, j) ∷ m) d = ground (arith, delete-IsDistinct c m d.1, get-delete e c m)

module _ (p : Platform) where
  -- The loop caches the keys of the counters from `c` to `c + n - 1` only.
  pub get-skip_keys :
      (x n c d : ℕ) (cursor : Bytes) (m : KeyCache)
      → (d < c) ⊎ (c + n ≤ d)
      → cache_get d m ≡ none
      → cache_get d (skip_keys p x n c cursor m).1 ≡ none
  unfolding skip_keys cache_skipped
  get-skip_keys x zero c d cursor m h e = e
  get-skip_keys x (suc n) c d cursor m h e =
      let (following, message) = derive_step p cursor in
      get-skip_keys x n (c + 1) d following (cache_skipped x c message m) (shift h)
        (get-evict d x (cache_set c message m) (ground (arith, get-set d c message m)))
    where
      shift : (d < c) ⊎ (c + suc n ≤ d) → (d < c + 1) ⊎ (c + 1 + n ≤ d)
      shift h = omega arith

  pub skip_keys-IsDistinct :
      (x n c : ℕ) (cursor : Bytes) (m : KeyCache)
      → IsDistinct m
      → IsDistinct (skip_keys p x n c cursor m).1
  unfolding skip_keys cache_skipped
  skip_keys-IsDistinct x zero c cursor m d = d
  skip_keys-IsDistinct x (suc n) c cursor m d =
      let (following, message) = derive_step p cursor in
      skip_keys-IsDistinct x n (c + 1) following (cache_skipped x c message m)
        (evict-IsDistinct x (cache_set c message m) (set-IsDistinct c message m d))
