-- ===== src/Crypto/Channel/Carried.antt =====
-- A message from `encryptAppMessage` through the frame to `decryptAppMessage`.
use onlytwo.Base.{
  ℕ, ◌+◌, ◌^◌, ◌≤◌, ◌<◌, ◌≡◌, ◌≢◌, ◌∙◌, ◌⊎◌, inl, inr, refl, ap, sym, subst, Option, none, some,
  Bytes, length, arith,
}
use native.Mathlib.Nat
use onlytwo.Config.Lanes.{Lane, control, text, file, voice}
use onlytwo.Protocol.Json.{Fields}
use onlytwo.Protocol.Messages.{AppMessage, app_fields}
use onlytwo.Protocol.Messages.Fit.{FitsApp}
use onlytwo.Protocol.Messages.Roundtrip.{decode_app-app_fields}
use onlytwo.Protocol.Streams.{stream_for_lane}
use onlytwo.Protocol.Envelope.{
  AadContext, Envelope, create_aad_context, data_type, pack_envelope, unpack_envelope,
}
use onlytwo.Protocol.Envelope
use onlytwo.Protocol.Envelope.Roundtrip.{FitsFrame, received, unpack-pack, pack-frame}
use onlytwo.Crypto.Platform.{Platform, IsPlatform}
use onlytwo.Crypto.Worker.{
  Worker, EncryptRequest, Encrypted, Reply, ok, err, encrypt_binary, decrypt_binary, cache_get,
}
use onlytwo.Crypto.Worker.Chain.{IsSynced}
use onlytwo.Crypto.Worker.Delivery.{IsSending, deliver, request_of}
use onlytwo.Crypto.Channel.{
  SecureChannel, next_sequence, draft, envelope_of, sealed_envelope, encrypt_app_message, decoded,
  decrypt_app_message,
}

-- A sequence number is never 0 and fits its field.
next_sequence-lt : (n : ℕ) → (1 ≤ next_sequence n) × (next_sequence n < 2 ^ 32)
unfolding next_sequence
next_sequence-lt n =
    let small = Nat.mod-lt (n + 1) {m = 2 ^ 32} (omega arith) in ground (arith, small)

stream-lt : (lane : Lane) → stream_for_lane lane < 2 ^ 32
unfolding stream_for_lane
stream-lt control = omega arith
stream-lt text = omega arith
stream-lt file = omega arith
stream-lt voice = omega arith

module _ (c : SecureChannel) (lane : Lane) (e : Encrypted) where
  draft-FitsFrame :
      c.profile.protocol_version < 256
      → e.counter < 2 ^ 64
      → length e.ciphertext < 2 ^ 32
      → FitsFrame (envelope_of (draft c lane) lane e)
  unfolding draft envelope_of
  draft-FitsFrame v n s = record {
    version = v;
    clear = refl;
    stream = stream-lt lane;
    order = (next_sequence-lt c.sequence).1;
    count = n;
    size = s;
  }

Reply-cases : {A : Type 0} (r : Reply A) → ((a : A) × (r ≡ ok a)) ⊎ ((x : _) × (r ≡ err x))
Reply-cases (ok a) = inl (a, refl)
Reply-cases (err x) = inr (x, refl)

module _ (p : Platform) (encode : Fields → Bytes) (c d : SecureChannel) (m : AppMessage)
    (lane : Lane) where
  -- What `encryptAppMessage` asks of the worker.
  abbrev pub asked : EncryptRequest
  asked = record {
    content = encode (app_fields m);
    context = create_aad_context (draft c lane) c.profile;
  }

  -- The frame of what was encrypted, decrypted and decoded.
  sealed_carried :
      (decode : Bytes → Option Fields) (now : ℕ) (w : Worker) (e : Encrypted)
      → d.profile ≡ c.profile
      → decode (encode (app_fields m)) ≡ some (app_fields m)
      → FitsApp m
      → (decrypt_binary p w (request_of asked e)).0 ≡ ok (encode (app_fields m))
      → (decrypt_app_message p decode now d w (received (envelope_of (draft c lane) lane e))).0
        ≡ some m
  unfolding decrypt_app_message envelope_of draft decoded
  sealed_carried decode now w e same law fits opened =
      let back = decode_app-app_fields now m fits in rw (same, opened, law, back) refl

-- A message within the bounds of its fields that `encryptAppMessage` turns into an envelope, which is
-- written as a frame, is what `decryptAppMessage` returns for the envelope read from that frame, when
-- both sides are on the same chain with the same profile and padding buckets, the counter is
-- within the receiver's window and ahead of it or among its skipped keys, and the numbers of the
-- frame fit their fields. What `JSON.parse` gives for the message's own text is the message's object.
pub message_carried :
    (p : Platform) (law : IsPlatform p) (encode : Fields → Bytes) (decode : Bytes → Option Fields)
    (k : Bytes) (rb : ℕ → Bytes) (nonce : Bytes) (now : ℕ) (c d : SecureChannel) (s w : Worker)
    (m : AppMessage) (lane : Lane) (env : Envelope) (b : Bytes)
    → ((n : ℕ) → length (rb n) ≡ n)
    → decode (encode (app_fields m)) ≡ some (app_fields m)
    → length (encode (app_fields m)) < 2 ^ 32
    → FitsApp m
    → d.profile ≡ c.profile
    → c.profile.protocol_version < 256
    → c.profile.max_frame_bytes < 2 ^ 32
    → w.config.padding_buckets ≡ s.config.padding_buckets
    → IsSending p k s
    → IsSynced p k w
    → (encrypt_app_message p encode rb nonce c s m lane).0 ≡ ok env
    → pack_envelope env c.profile ≡ Envelope.ok b
    → env.counter < 2 ^ 64
    → env.counter ≤ w.highest_inbound_counter + (w.config.max_skipped_message_keys + 1)
    → (w.highest_inbound_counter < env.counter) ⊎ (cache_get env.counter w.skipped_keys ≢ none)
    → (arrived : Envelope) × (unpack_envelope b d.profile ≡ Envelope.ok arrived)
      × ((decrypt_app_message p decode now d w arrived).0 ≡ some m)
unfolding encrypt_app_message sealed_envelope envelope_of
message_carried p law encode decode k rb nonce now c d s w m lane env b random back small fits same
      version limit buckets sending synced sent packed count window fresh =
    let q = asked p encode c d m lane in
    let context = draft c lane in
    elim (Reply-cases (encrypt_binary p rb nonce s q).0) [
      | inl (e, h) ↦
          let named : ok (envelope_of context lane e) ≡ ok env =
            sym (ap (sealed_envelope context lane) h) ∙ sent in
          let same_env : env ≡ envelope_of context lane e = cc in
          let (there, number, near, new) =
            subst
              (λ (v : Envelope).
                (pack_envelope v c.profile ≡ Envelope.ok b)
                × (v.counter < 2 ^ 64)
                × (v.counter ≤ w.highest_inbound_counter + (w.config.max_skipped_message_keys + 1))
                × ((w.highest_inbound_counter < v.counter)
                    ⊎ (cache_get v.counter w.skipped_keys ≢ none)))
              same_env (packed, count, window, fresh) in
          let writes = (pack-frame (envelope_of context lane e) c.profile b).0 there in
          let fit =
            draft-FitsFrame c lane e version number (omega (arith, limit, writes.0.bounded)) in
          (
            received (envelope_of context lane e),
            rw same (unpack-pack (envelope_of context lane e) c.profile b fit there),
            sealed_carried p encode c d m lane decode now w e same back fits
                (deliver p law k rb nonce s w q e random small buckets sending synced h near new),
          )
      | inr (x, h) ↦
          let failed : err x ≡ ok env = sym (ap (sealed_envelope context lane) h) ∙ sent in
          absurd (cc)
    ]
