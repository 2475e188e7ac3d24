-- ===== src/Crypto/Worker/Delivery.antt =====
-- What a sender encrypts a receiver on the same chain decrypts, in any order within the window.
use onlytwo.Base.{
  ℕ, suc, ◌+◌, ◌-◌, ◌^◌, ◌≤◌, ◌<◌, ◌≡◌, ◌≢◌, refl, ap, true, none, some, ◌⊎◌, inl, inr, length,
  Bytes, arith, Option-cases, length-drop,
}
use onlytwo.Protocol.Envelope.{AadContext, encode_aad}
use onlytwo.Protocol.Envelope
use onlytwo.Protocol.Envelope.Header.{encode_aad_lem}
use onlytwo.Crypto.Worker.Chain.{
  chain_at, message_key, get-IsGenuine, ahead_keys, chain-pred, decrypt_synced, IsSynced,
}
use onlytwo.Crypto.Platform.{Platform, IsPlatform}
use onlytwo.Crypto.Padding.{build_plaintext, parse_plaintext, parse-build}
use onlytwo.Crypto.Worker.{
  Worker, EncryptRequest, DecryptRequest, Encrypted, ok, cache_get, derive_step, open_payload,
  decrypt_cached, decrypt_ahead, decrypt_with, decrypt_checked, decrypt_binary, encrypt_binary,
  zero_32,
}

module _ (p : Platform) where
  -- A sender on the chain that starts at `k`.
  pub record IsSending (k : Bytes) (w : Worker) : Type 0 where
    pub established : w.session_established ≡ true
    pub on_chain : w.send_chain_key ≡ some (chain_at p k w.outbound_counter)

  -- What a successful `encryptBinary` puts on the wire.
  pub record IsSealed (k : Bytes) (rb : ℕ → Bytes) (w : Worker) (q : EncryptRequest) (e : Encrypted)
      : Type 0 where
    pub aad : Bytes
    pub padded : Bytes
    pub next_counter : e.counter ≡ w.outbound_counter + 1
    pub bound : encode_aad q.context e.counter e.nonce ≡ Envelope.ok aad
    pub built : build_plaintext rb w.config.padding_buckets q.content ≡ some padded
    pub sealed : e.ciphertext ≡ p.seal (message_key p k w.outbound_counter) e.nonce aad padded

  Result-cases :
      {A : Type 0} (r : Envelope.Result A)
      → ((a : A) × (r ≡ Envelope.ok a)) ⊎ ((x : Envelope.FrameError) × (r ≡ Envelope.err x))
  Result-cases (Envelope.ok a) = inl (a, refl)
  Result-cases (Envelope.err x) = inr (x, refl)

  encrypt-IsSealed :
      (k : Bytes) (rb : ℕ → Bytes) (nonce : Bytes) (w : Worker) (q : EncryptRequest) (e : Encrypted)
      → IsSending k w
      → (encrypt_binary p rb nonce w q).0 ≡ ok e
      → IsSealed k rb w q e
  unfolding encrypt_binary message_key
  encrypt-IsSealed k rb nonce w q e s h =
      elim (Result-cases (encode_aad q.context (w.outbound_counter + 1) nonce)) [
        | inl (aad, a) ↦
            elim (Option-cases (build_plaintext rb w.config.padding_buckets q.content)) [
              | inl b ↦ absurd (ground (arith, s, a, b))
              | inr (padded, b) ↦ record {
                aad = aad;
                padded = padded;
                next_counter = ground (arith, s, a, b);
                bound = ground (arith, s, a, b);
                built = b;
                sealed = ground (arith, s, a, b);
              }
            ]
        | inr (x, a) ↦ absurd (ground (arith, s, a))
      ]

  -- Encrypting, with success or not, moves the sender one step along the chain.
  pub encrypt-IsSending :
      (k : Bytes) (rb : ℕ → Bytes) (nonce : Bytes) (w : Worker) (q : EncryptRequest)
      → IsSending k w
      → IsSending k (encrypt_binary p rb nonce w q).1
  unfolding encrypt_binary
  encrypt-IsSending k rb nonce w q s =
      let e : w.outbound_counter + 1 ≡ suc w.outbound_counter = omega arith in
      ground (arith, s, ap (chain_at p k) e, chain-pred p k (w.outbound_counter + 1))

-- The frame that carries what was encrypted, as the receiver hands it to the worker.
abbrev pub request_of : EncryptRequest → Encrypted → DecryptRequest
request_of q e = record {
  ciphertext = e.ciphertext;
  nonce = e.nonce;
  counter = e.counter;
  context = q.context;
}

module _ (p : Platform) (law : IsPlatform p) where
  length-message_key : (k : Bytes) (n : ℕ) → length (message_key p k n) ≡ 32
  unfolding message_key derive_step
  length-message_key k n =
      let material = p.hkdf (chain_at p k n) zero_32 (p.utf8_encode "onlytwo-v2-chain-step") 64 in
      omega (
        arith,
        length-drop 32 material,
        law.length-hkdf (chain_at p k n) zero_32 (p.utf8_encode "onlytwo-v2-chain-step") 64,
      )

  module _ (k : Bytes) (rb : ℕ → Bytes) (s w : Worker) (q : EncryptRequest) (e : Encrypted) where
    open_sealed :
        (x : IsSealed p k rb s q e)
        → open_payload p (message_key p k (e.counter - 1)) (request_of q e) ≡ ok x.padded
    unfolding open_payload
    open_sealed x =
        let back : e.counter - 1 ≡ s.outbound_counter = omega (arith, x.next_counter) in
        let key = message_key p k s.outbound_counter in
        let opened = law.unseal-seal key e.nonce x.aad x.padded in
        rw back (ground (arith, x.bound, x.sealed, length-message_key k s.outbound_counter, opened))

    module _ (random : (n : ℕ) → length (rb n) ≡ n) (small : length q.content < 2 ^ 32)
        (buckets : w.config.padding_buckets ≡ s.config.padding_buckets)
        (x : IsSealed p k rb s q e) where
      parse_sealed : parse_plaintext w.config.padding_buckets x.padded ≡ some q.content
      parse_sealed =
          rw buckets
            (parse-build rb s.config.padding_buckets q.content x.padded random small x.built)

      deliver_ahead :
          IsSynced p k w
          → w.highest_inbound_counter < e.counter
          → (decrypt_ahead p w (request_of q e) (chain_at p k w.highest_inbound_counter)).0
            ≡ ok q.content
      unfolding decrypt_ahead
      deliver_ahead y l =
          let (cursor, _) = ahead_keys p k w (request_of q e) y.genuine l in
          let key =
            ap (λ (c : Bytes). open_payload p (derive_step p c).1 (request_of q e)) cursor in
          ground (arith, key, opened, parse_sealed)
        where
          opened :
              open_payload p (derive_step p (chain_at p k (e.counter - 1))).1 (request_of q e)
              ≡ ok x.padded
          opened = unfold message_key in open_sealed x

      deliver_cached :
          (key : Bytes)
          → key ≡ message_key p k (e.counter - 1)
          → (decrypt_cached p w (request_of q e) key).0 ≡ ok q.content
      unfolding decrypt_cached
      deliver_cached key same =
          let opened = ap (λ (c : Bytes). open_payload p c (request_of q e)) same in
          ground (arith, opened, open_sealed x, parse_sealed)

      deliver_checked :
          IsSynced p k w
          → length e.nonce ≡ 12
          → e.counter ≤ w.highest_inbound_counter + (w.config.max_skipped_message_keys + 1)
          → (w.highest_inbound_counter < e.counter) ⊎ (cache_get e.counter w.skipped_keys ≢ none)
          → (decrypt_checked p w (request_of q e) (chain_at p k w.highest_inbound_counter)).0
            ≡ ok q.content
      unfolding decrypt_checked decrypt_with
      deliver_checked y n window fresh = elim (Option-cases (cache_get e.counter w.skipped_keys)) [
        | inl f ↦ ground (arith, f, deliver_ahead y)
        | inr (key, f) ↦
            let same = get-IsGenuine p k e.counter key w.skipped_keys y.genuine f in
            ground (arith, f, deliver_cached key same)
      ]

  -- Whatever a sender on the chain encrypts successfully, a receiver on the same chain with the same
  -- padding buckets decrypts to the same content, if the counter is within its window and is either
  -- ahead of the receiver or among its skipped keys.
  pub deliver :
      (k : Bytes) (rb : ℕ → Bytes) (nonce : Bytes) (s w : Worker) (q : EncryptRequest)
      (e : Encrypted)
      → ((n : ℕ) → length (rb n) ≡ n)
      → length q.content < 2 ^ 32
      → w.config.padding_buckets ≡ s.config.padding_buckets
      → IsSending p k s
      → IsSynced p k w
      → (encrypt_binary p rb nonce s q).0 ≡ ok e
      → e.counter ≤ w.highest_inbound_counter + (w.config.max_skipped_message_keys + 1)
      → (w.highest_inbound_counter < e.counter) ⊎ (cache_get e.counter w.skipped_keys ≢ none)
      → (decrypt_binary p w (request_of q e)).0 ≡ ok q.content
  deliver k rb nonce s w q e random small buckets sending synced sent window fresh =
      let x = encrypt-IsSealed p k rb nonce s q e sending sent in
      let n = (encode_aad_lem q.context e.counter e.nonce x.aad x.bound).0 in
      rw (decrypt_synced p k w (request_of q e) synced)
        (deliver_checked k rb s w q e random small buckets x synced n window fresh)
