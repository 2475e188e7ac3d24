-- ===== src/Crypto/Worker.antt =====
-- client/src/crypto/cryptoWorker.ts: the session state and the requests that encrypt and decrypt.
-- Requests run one after another (`workerChain`), so each is one step from state to state; what a
-- request changed before it threw stays changed. Overwriting old keys (`zeroize`) is left out: each
-- overwritten array is a copy, or is dropped from the state at the same time.
mod Cache
mod Replay
pub mod Chain
pub mod Delivery
pub mod Session
pub mod Agreement
mod Forgery
mod Quota
pub mod Tests
use onlytwo.Base.{
  ℕ, suc, zero, ◌+◌, ◌-◌, Bool, true, false, not, ◌&&◌, Option, none, some, List, [], ◌∷◌, ltb, leb,
  ◌==◌, if◌then◌else◌, length, take, drop, replicate, Bytes, min, max,
}
use onlytwo.Protocol.Envelope.{AadContext, encode_aad}
use onlytwo.Protocol.Envelope
use onlytwo.Crypto.Platform.{Platform}
use onlytwo.Crypto.Padding.{sort_numbers, build_plaintext, parse_plaintext}

-- `Map<bigint, Uint8Array>`, oldest insertion first.
abbrev pub KeyCache : Type 0
KeyCache = List (ℕ × Bytes)

pub record CryptoConfig : Type 0 where
  pub padding_buckets : List ℕ
  pub max_skipped_message_keys : ℕ
  pub protocol_version : ℕ

pub record KeyPair : Type 0 where
  pub private : Bytes
  pub public : Bytes

pub record Worker : Type 0 where
  pub config : CryptoConfig
  pub identity : Option KeyPair
  pub send_chain_key : Option Bytes
  pub receive_chain_key : Option Bytes
  pub outbound_counter : ℕ
  pub highest_inbound_counter : ℕ
  pub session_established : Bool
  pub skipped_keys : KeyCache

pub data CryptoError : Type 0 where
  session_not_established invalid_nonce_length counter_too_far_ahead replay_detected : CryptoError
  invalid_aad invalid_aes_key decryption_failed invalid_plaintext not_padded : CryptoError
  identity_not_generated invalid_peer_key identical_peer_key rejected_peer_key : CryptoError

pub data Reply (A : Type 0) : Type 0 where
  ok : A → Reply A
  err : CryptoError → Reply A

pub record EncryptRequest : Type 0 where
  pub content : Bytes
  pub context : AadContext

pub record DecryptRequest : Type 0 where
  pub ciphertext : Bytes
  pub nonce : Bytes
  pub counter : ℕ
  pub context : AadContext

pub record Encrypted : Type 0 where
  pub ciphertext : Bytes
  pub nonce : Bytes
  pub counter : ℕ

-- `Map.get`, `Map.set` (which keeps the place of a key that is there) and `Map.delete`.
pub cache_get : ℕ → KeyCache → Option Bytes
cache_get c [] = none
cache_get c ((d, k) ∷ m) = if c == d then some k else cache_get c m

pub cache_set : ℕ → Bytes → KeyCache → KeyCache
cache_set c k [] = (c, k) ∷ []
cache_set c k ((d, j) ∷ m) = if c == d then (d, k) ∷ m else (d, j) ∷ cache_set c k m

pub cache_delete : ℕ → KeyCache → KeyCache
cache_delete c [] = []
cache_delete c ((d, k) ∷ m) = if c == d then m else (d, k) ∷ cache_delete c m

-- `while (skippedKeys.size > max)` delete the oldest.
pub evict : ℕ → KeyCache → KeyCache
evict max_keys [] = []
evict max_keys (e ∷ m) =
    let rest = evict max_keys m in if ltb max_keys (suc (length m)) then rest else e ∷ m

pub cache_skipped : ℕ → ℕ → Bytes → KeyCache → KeyCache
cache_skipped max_keys counter key m = evict max_keys (cache_set counter key m)

abbrev pub zero_32 : Bytes
zero_32 = replicate 32 0

module _ (p : Platform) where
  -- The next chain key and the message key.
  pub derive_step : Bytes → Bytes × Bytes
  derive_step chain_key =
      let material = p.hkdf chain_key zero_32 (p.utf8_encode "onlytwo-v2-chain-step") 64 in
      (take 32 material, drop 32 material)

  -- The loop of `decryptBinary`: `n` message keys from counter `c` on are cached.
  pub skip_keys : ℕ → ℕ → ℕ → Bytes → KeyCache → Bytes × KeyCache
  skip_keys max_keys zero c cursor m = (cursor, m)
  skip_keys max_keys (suc n) c cursor m =
      let (following, message) = derive_step cursor in
      skip_keys max_keys n (c + 1) following (cache_skipped max_keys c message m)

  -- From `encodeAad` to `subtle.decrypt`; any error leaves no plaintext.
  pub open_payload : Bytes → DecryptRequest → Reply Bytes
  open_payload key r = elim (encode_aad r.context r.counter r.nonce) [
    | Envelope.err e ↦ err invalid_aad
    | Envelope.ok aad ↦
        if not (length key == 32)
        then err invalid_aes_key
        else elim (p.unseal key r.nonce aad r.ciphertext) [
          | none ↦ err decryption_failed
          | some padded ↦ ok padded
        ]
  ]

  parsed : Worker → Bytes → Reply Bytes
  parsed w padded = elim (parse_plaintext w.config.padding_buckets padded) [
    | none ↦ err invalid_plaintext
    | some content ↦ ok content
  ]

  -- What follows on `subtle.decrypt`: `failed` if it threw, otherwise `advanced`, and then
  -- `parsePlaintext`, which may throw too.
  settle : Reply Bytes → Worker → Worker → Reply Bytes × Worker
  unfolding parsed
  settle (err e) failed advanced = (err e, failed)
  settle (ok padded) failed advanced = (parsed advanced padded, advanced)

  -- The branch with a cached key.
  pub decrypt_cached : Worker → DecryptRequest → Bytes → Reply Bytes × Worker
  unfolding settle
  decrypt_cached w r key =
      settle (open_payload key r) w
        (record w { skipped_keys = cache_delete r.counter w.skipped_keys })

  -- The branch that walks the receiving chain up to the counter.
  pub decrypt_ahead : Worker → DecryptRequest → Bytes → Reply Bytes × Worker
  unfolding settle
  decrypt_ahead w r chain =
      let (cursor, m) =
        skip_keys w.config.max_skipped_message_keys (r.counter - (w.highest_inbound_counter + 1))
          (w.highest_inbound_counter + 1) chain w.skipped_keys in
      let (following, message) = derive_step cursor in
      settle (open_payload message r) (record w { skipped_keys = m })
        (record w {
          skipped_keys = m;
          receive_chain_key = some following;
          highest_inbound_counter = r.counter;
        })

  pub decrypt_with : Worker → DecryptRequest → Bytes → Option Bytes → Reply Bytes × Worker
  decrypt_with w r chain (some key) = decrypt_cached w r key
  decrypt_with w r chain none =
      if leb r.counter w.highest_inbound_counter
      then (err replay_detected, w)
      else decrypt_ahead w r chain

  pub decrypt_checked : Worker → DecryptRequest → Bytes → Reply Bytes × Worker
  decrypt_checked w r chain =
      if not (length r.nonce == 12)
      then (err invalid_nonce_length, w)
      else if ltb (w.highest_inbound_counter + (w.config.max_skipped_message_keys + 1)) r.counter
      then (err counter_too_far_ahead, w)
      else decrypt_with w r chain (cache_get r.counter w.skipped_keys)

  -- `!sessionEstablished || !receiveChainKey`
  chain_of : Bool → Option Bytes → Option Bytes
  chain_of true k = k
  chain_of false k = none

  -- `decryptBinary`
  pub decrypt_binary : Worker → DecryptRequest → Reply Bytes × Worker
  unfolding chain_of
  decrypt_binary w r = elim (chain_of w.session_established w.receive_chain_key) [
    | none ↦ (err session_not_established, w)
    | some chain ↦ decrypt_checked w r chain
  ]

  -- From `encodeAad` on; the state has moved on before any of it can throw.
  encrypt_step : (ℕ → Bytes) → Worker → EncryptRequest → Bytes → Bytes → ℕ → Reply Encrypted
  encrypt_step random_bytes w r message nonce counter = elim (encode_aad r.context counter nonce) [
    | Envelope.err e ↦ err invalid_aad
    | Envelope.ok aad ↦
        if not (length message == 32)
        then err invalid_aes_key
        else elim (build_plaintext random_bytes w.config.padding_buckets r.content) [
          | none ↦ err not_padded
          | some padded ↦ ok (record {
            ciphertext = p.seal message nonce aad padded;
            nonce = nonce;
            counter = counter;
          })
        ]
  ]

  -- `encryptBinary`, with the nonce and the padding's filling from `random_bytes`.
  pub encrypt_binary : (ℕ → Bytes) → Bytes → Worker → EncryptRequest → Reply Encrypted × Worker
  unfolding encrypt_step chain_of
  encrypt_binary random_bytes nonce w r = elim (chain_of w.session_established w.send_chain_key) [
    | none ↦ (err session_not_established, w)
    | some chain ↦
        let (following, message) = derive_step chain in
        (
          encrypt_step random_bytes w r message nonce (w.outbound_counter + 1),
          record w { send_chain_key = some following; outbound_counter = w.outbound_counter + 1 },
        )
  ]
