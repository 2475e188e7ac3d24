-- ===== src/Files/Sender/Inflight.antt =====
-- The map `inflight` of client/src/features/file/FileSender.ts, in insertion order.
use onlytwo.Base.{
  ℕ, suc, ◌≤◌, ◌≡◌, ◌≢◌, refl, ap, Bool, true, false, ◌||◌, Option, none, some, List, [], ◌∷◌, ◌==◌,
  if◌then◌else◌, length, arith,
}
use onlytwo.Files.Sender.{InflightChunk, retry_wait}

abbrev pub Inflight : Type 0
Inflight = List (ℕ × InflightChunk)

unfoldable pub get : ℕ → Inflight → Option InflightChunk
get i [] = none
get i ((j, c) ∷ m) = if i == j then some c else get i m

unfoldable pub has : ℕ → Inflight → Bool
has i [] = false
has i ((j, c) ∷ m) = i == j || has i m

-- `set`, which keeps the place of a key that is there.
unfoldable pub put : ℕ → InflightChunk → Inflight → Inflight
put i c [] = (i, c) ∷ []
put i c ((j, d) ∷ m) = if i == j then (j, c) ∷ m else (j, d) ∷ put i c m

unfoldable pub delete : ℕ → Inflight → Inflight
delete i [] = []
delete i ((j, c) ∷ m) = if i == j then m else (j, c) ∷ delete i m

unfoldable pub keys : Inflight → List ℕ
keys [] = []
keys ((j, c) ∷ m) = j ∷ keys m

-- The loop of `holdOutstanding`.
unfoldable pub hold : Inflight → Inflight
hold [] = []
hold ((j, c) ∷ m) = (j, record { attempts = c.attempts; state = retry_wait; timer = none }) ∷ hold m

pub get-has : (i : ℕ) (m : Inflight) (c : InflightChunk) → get i m ≡ some c → has i m ≡ true
unfolding get has
get-has i [] c e = cc
get-has i ((j, d) ∷ m) c e = ground (arith, get-has i m c)

pub has-put : (i j : ℕ) (c : InflightChunk) (m : Inflight) → has j (put i c m) ≡ (j == i || has j m)
unfolding has put
has-put i j c [] = refl
has-put i j c ((k, d) ∷ m) = ground (arith, has-put i j c m)

pub length-put :
    (i : ℕ) (c : InflightChunk) (m : Inflight)
    → length (put i c m) ≡ (if has i m then length m else suc (length m))
unfolding has put
length-put i c [] = refl
length-put i c ((k, d) ∷ m) = ground (arith, length-put i c m)

pub has-delete : (i j : ℕ) (m : Inflight) → j ≢ i → has j m ≡ true → has j (delete i m) ≡ true
unfolding has delete
has-delete i j [] h e = e
has-delete i j ((k, d) ∷ m) h e = ground (arith, has-delete i j m h)

pub length-delete : (i : ℕ) (m : Inflight) → length (delete i m) ≤ length m
unfolding delete
length-delete i [] = omega arith
length-delete i ((k, d) ∷ m) = ground (arith, length-delete i m)

pub has-hold : (j : ℕ) (m : Inflight) → has j (hold m) ≡ has j m
unfolding has hold
has-hold j [] = refl
has-hold j ((k, d) ∷ m) = ap (◌||◌ (j == k)) (has-hold j m)

pub length-hold : (m : Inflight) → length (hold m) ≡ length m
unfolding hold
length-hold [] = refl
length-hold ((k, d) ∷ m) = ap suc (length-hold m)
