-- ===== src/Crypto/Worker/Chain.antt =====
-- The receiving chain: which key belongs to which counter, and that no request leaves the chain.
use onlytwo.Base.{
  ℕ, suc, zero, ◌+◌, ◌-◌, ◌<◌, ◌≡◌, ap, subst, ◌∙◌, true, some, [], ◌∷◌, inl, inr, Bytes, arith,
  Option-cases,
}
use onlytwo.Crypto.Platform.{Platform}
use onlytwo.Crypto.Worker.{
  Worker, DecryptRequest, KeyCache, cache_get, cache_set, cache_delete, evict, cache_skipped,
  skip_keys, derive_step, decrypt_cached, decrypt_ahead, decrypt_with, decrypt_checked,
  decrypt_binary,
}

module _ (p : Platform) where
  -- The chain key after `n` messages, and the key of message `n + 1`.
  unfoldable pub chain_at : Bytes → ℕ → Bytes
  chain_at k zero = k
  chain_at k (suc n) = (derive_step p (chain_at k n)).0

  unfoldable pub message_key : Bytes → ℕ → Bytes
  message_key k n = (derive_step p (chain_at k n)).1

  -- Each cached key is the key of its counter.
  abbrev pub IsGenuine : Bytes → KeyCache → Type 0
  IsGenuine k [] = Unit {0}
  IsGenuine k ((c, key) ∷ m) = (key ≡ message_key k (c - 1)) × IsGenuine k m

  pub get-IsGenuine :
      (k : Bytes) (c : ℕ) (key : Bytes) (m : KeyCache)
      → IsGenuine k m
      → cache_get c m ≡ some key
      → key ≡ message_key k (c - 1)
  unfolding cache_get
  get-IsGenuine k c key [] g e = cc
  get-IsGenuine k c key ((d, j) ∷ m) g e = ground (arith, get-IsGenuine k c key m g.1)

  set-IsGenuine :
      (k : Bytes) (c : ℕ) (key : Bytes) (m : KeyCache)
      → key ≡ message_key k (c - 1)
      → IsGenuine k m
      → IsGenuine k (cache_set c key m)
  unfolding cache_set
  set-IsGenuine k c key [] e g = (e, tt)
  set-IsGenuine k c key ((d, j) ∷ m) e g = ground (arith, set-IsGenuine k c key m e g.1)

  evict-IsGenuine : (k : Bytes) (n : ℕ) (m : KeyCache) → IsGenuine k m → IsGenuine k (evict n m)
  unfolding evict
  evict-IsGenuine k n [] g = tt
  evict-IsGenuine k n ((d, j) ∷ m) g = ground (arith, evict-IsGenuine k n m g.1)

  delete-IsGenuine :
      (k : Bytes) (c : ℕ) (m : KeyCache) → IsGenuine k m → IsGenuine k (cache_delete c m)
  unfolding cache_delete
  delete-IsGenuine k c [] g = tt
  delete-IsGenuine k c ((d, j) ∷ m) g = ground (arith, delete-IsGenuine k c m g.1)

  cache_skipped-IsGenuine :
      (k : Bytes) (x h : ℕ) (m : KeyCache)
      → IsGenuine k m
      → IsGenuine k (cache_skipped x (h + 1) (message_key k h) m)
  unfolding cache_skipped
  cache_skipped-IsGenuine k x h m g =
      let back : h ≡ h + 1 - 1 = omega arith in
      evict-IsGenuine k x (cache_set (h + 1) (message_key k h) m)
        (set-IsGenuine k (h + 1) (message_key k h) m (ap (message_key k) back) g)

  -- The loop walks the chain, and caches genuine keys.
  skip_keys_lem :
      (k : Bytes) (x n h : ℕ) (m : KeyCache)
      → IsGenuine k m
      → ((skip_keys p x n (h + 1) (chain_at k h) m).0 ≡ chain_at k (h + n))
        × IsGenuine k (skip_keys p x n (h + 1) (chain_at k h) m).1
  unfolding skip_keys chain_at message_key
  skip_keys_lem k x zero h m g = (ap (chain_at k) (omega arith), g)
  skip_keys_lem k x (suc n) h m g =
      let following : chain_at k (h + 1) ≡ (derive_step p (chain_at k h)).0 =
        ap (chain_at k) (let e : h + 1 ≡ suc h = omega arith in e) in
      let end : h + 1 + n ≡ h + suc n = omega arith in
      let m' = cache_skipped x (h + 1) (message_key k h) m in
      let g' : IsGenuine k m' = cache_skipped-IsGenuine k x h m g in
      subst
        (λ (c : Bytes).
          ((skip_keys p x n (h + 1 + 1) c m').0 ≡ chain_at k (h + suc n))
          × IsGenuine k (skip_keys p x n (h + 1 + 1) c m').1)
        following
        (subst
          (λ (e : ℕ).
            ((skip_keys p x n (h + 1 + 1) (chain_at k (h + 1)) m').0 ≡ chain_at k e)
            × IsGenuine k (skip_keys p x n (h + 1 + 1) (chain_at k (h + 1)) m').1)
          end (skip_keys_lem k x n (h + 1) m' g'))

  -- The receiver stands on the chain that starts at `k`.
  pub record IsSynced (k : Bytes) (w : Worker) : Type 0 where
    pub established : w.session_established ≡ true
    pub on_chain : w.receive_chain_key ≡ some (chain_at k w.highest_inbound_counter)
    pub genuine : IsGenuine k w.skipped_keys

  pub ahead_keys :
      (k : Bytes) (w : Worker) (r : DecryptRequest)
      → IsGenuine k w.skipped_keys
      → w.highest_inbound_counter < r.counter
      → let h = w.highest_inbound_counter in
        let (cursor, m) =
          skip_keys p w.config.max_skipped_message_keys
            (r.counter - (h + 1))
            (h + 1)
            (chain_at k h)
            w.skipped_keys in
        (cursor ≡ chain_at k (r.counter - 1)) × IsGenuine k m
  ahead_keys k w r g l =
      let h = w.highest_inbound_counter in
      let (walk, kept) =
        skip_keys_lem k w.config.max_skipped_message_keys (r.counter - (h + 1)) h w.skipped_keys
          g in
      (walk ∙ ap (chain_at k) (omega arith), kept)

  pub chain-pred :
      (k : Bytes) (n : ℕ) → 0 < n → chain_at k n ≡ (derive_step p (chain_at k (n - 1))).0
  unfolding chain_at
  chain-pred k zero h = absurd (omega arith)
  chain-pred k (suc n) h =
      ap (λ m. (derive_step p (chain_at k m)).0) (let e : n ≡ suc n - 1 = omega arith in e)

  ahead-IsSynced :
      (k : Bytes) (w : Worker) (r : DecryptRequest)
      → IsSynced k w
      → w.highest_inbound_counter < r.counter
      → IsSynced k (decrypt_ahead p w r (chain_at k w.highest_inbound_counter)).1
  unfolding decrypt_ahead
  ahead-IsSynced k w r s l = ground (arith, s, ahead_keys k w r s.genuine l, chain-pred k r.counter)

  cached-IsSynced :
      (k : Bytes) (w : Worker) (r : DecryptRequest) (key : Bytes)
      → IsSynced k w
      → IsSynced k (decrypt_cached p w r key).1
  unfolding decrypt_cached
  cached-IsSynced k w r key s =
      ground (arith, s, delete-IsGenuine k r.counter w.skipped_keys s.genuine)

  checked-IsSynced :
      (k : Bytes) (w : Worker) (r : DecryptRequest)
      → IsSynced k w
      → IsSynced k (decrypt_checked p w r (chain_at k w.highest_inbound_counter)).1
  unfolding decrypt_checked decrypt_with
  checked-IsSynced k w r s = elim (Option-cases (cache_get r.counter w.skipped_keys)) [
    | inl e ↦ ground (arith, e, s, ahead-IsSynced k w r s)
    | inr (key, e) ↦ ground (arith, e, s, cached-IsSynced k w r key s)
  ]

  pub decrypt_synced :
      (k : Bytes) (w : Worker) (r : DecryptRequest)
      → IsSynced k w
      → decrypt_binary p w r ≡ decrypt_checked p w r (chain_at k w.highest_inbound_counter)
  unfolding decrypt_binary
  decrypt_synced k w r s = rw (s.established, s.on_chain)

  -- No request, accepted or refused, puts the receiver off the sender's chain.
  pub decrypt-IsSynced :
      (k : Bytes) (w : Worker) (r : DecryptRequest)
      → IsSynced k w
      → IsSynced k (decrypt_binary p w r).1
  decrypt-IsSynced k w r s = rw (decrypt_synced k w r s) (checked-IsSynced k w r s)
