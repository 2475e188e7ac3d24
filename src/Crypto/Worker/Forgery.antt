-- ===== src/Crypto/Worker/Forgery.antt =====
-- What one forged frame does to replay protection: the keys that `decryptBinary` skips are cached
-- before the frame is authenticated, while the receiving chain stays where it was.
use onlytwo.Base.{◌+◌, ◌-◌, ◌≤◌, ◌≡◌, arith, [], ◌∷◌, ℕ, Bytes, some, true, length}
use onlytwo.Crypto.Platform.{Platform}
use onlytwo.Crypto.Worker.{
  Worker, DecryptRequest, ok, err, CryptoError, cache_get, cache_set, cache_delete, evict,
  cache_skipped, skip_keys, derive_step, open_payload, decrypt_cached, decrypt_ahead, decrypt_with,
  decrypt_checked, decrypt_binary,
}

module _ (p : Platform) (w : Worker) (chain : Bytes) where
  abbrev pub first_key : Bytes
  first_key = (derive_step p chain).1

  abbrev pub second_key : Bytes
  second_key = (derive_step p (derive_step p chain).0).1

  -- The receiver with the key of the next counter in its cache.
  abbrev primed : Worker
  primed = record w { skipped_keys = (w.highest_inbound_counter + 1, first_key) ∷ [] }

  skip_one :
      (x c : ℕ)
      → 1 ≤ x
      → skip_keys p x 1 c chain [] ≡ ((derive_step p chain).0, (c, first_key) ∷ [])
  unfolding skip_keys cache_skipped cache_set evict
  skip_one x c h = ground arith

  module _ (established : w.session_established ≡ true)
      (on_chain : w.receive_chain_key ≡ some chain) (empty : w.skipped_keys ≡ [])
      (room : 1 ≤ w.config.max_skipped_message_keys) where
    forged_primes :
        (f : DecryptRequest) (x : CryptoError)
        → length f.nonce ≡ 12
        → f.counter ≡ w.highest_inbound_counter + 2
        → open_payload p second_key f ≡ err x
        → (decrypt_binary p w f).1 ≡ primed
    unfolding decrypt_binary decrypt_checked decrypt_with decrypt_ahead cache_get
    forged_primes f x n c e =
        let one : f.counter - (w.highest_inbound_counter + 1) ≡ 1 = omega arith in
        let skipped =
          skip_one w.config.max_skipped_message_keys (w.highest_inbound_counter + 1) room in
        ground (arith, one, skipped)

    -- With the cache primed, the genuine frame is opened with the cached key, and the receiver is
    -- back in its first state.
    genuine_again :
        (g : DecryptRequest) (text : Bytes)
        → g.counter ≡ w.highest_inbound_counter + 1
        → (decrypt_binary p w g).0 ≡ ok text
        → ((decrypt_binary p primed g).0 ≡ ok text) × ((decrypt_binary p primed g).1 ≡ w)
    unfolding decrypt_binary decrypt_checked decrypt_with decrypt_ahead decrypt_cached cache_get
        cache_delete skip_keys
    genuine_again g text c h =
        let none_skipped : g.counter - (w.highest_inbound_counter + 1) ≡ 0 = omega arith in
        ground (arith, none_skipped)

  -- In a session with an empty cache, let the relay slip in a frame two counters ahead that does not
  -- decrypt, and then deliver the next genuine frame twice: both copies are accepted, since the
  -- first leaves the receiver as it was before the forgery.
  pub replay_after_forgery :
      (f g : DecryptRequest) (x : CryptoError) (text : Bytes)
      → w.session_established ≡ true
      → w.receive_chain_key ≡ some chain
      → w.skipped_keys ≡ []
      → 1 ≤ w.config.max_skipped_message_keys
      → length f.nonce ≡ 12
      → f.counter ≡ w.highest_inbound_counter + 2
      → open_payload p second_key f ≡ err x
      → g.counter ≡ w.highest_inbound_counter + 1
      → (decrypt_binary p w g).0 ≡ ok text
      → let forged = (decrypt_binary p w f).1 in
        let once = (decrypt_binary p forged g).1 in
        ((decrypt_binary p forged g).0 ≡ ok text)
        × (once ≡ w)
        × ((decrypt_binary p once g).0 ≡ ok text)
  replay_after_forgery f g x text est on empty room n c e d h =
      let primes = forged_primes est on empty room f x n c e in
      let (opened, back) = genuine_again est on empty room g text d h in
      rw primes (opened, back, rw back h)
