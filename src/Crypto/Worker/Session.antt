-- ===== src/Crypto/Worker/Session.antt =====
-- client/src/crypto/cryptoWorker.ts: identities, sessions, and the dispatch of requests. Requests are
-- taken as converted (`toBytes`, `Number`, `String`); `private_key` is what `generateKey` draws.
use Prim.Native.String.{String}
use Prim.Native.String
use Prim.Native.Nat.{compare, Ordering}
use onlytwo.Base.{
  ℕ, Bool, true, false, not, Option, none, some, List, [], ◌∷◌, leb, ◌==◌, if◌then◌else◌, length,
  Bytes, min, max, contains,
}
use onlytwo.Crypto.Platform.{Platform}
use onlytwo.Crypto.Padding.{sort_numbers}
use onlytwo.Crypto.Worker.{
  Worker, CryptoConfig, KeyPair, Reply, ok, err, identity_not_generated, invalid_peer_key,
  identical_peer_key, EncryptRequest, DecryptRequest, Encrypted, encrypt_binary, decrypt_binary,
  zero_32, rejected_peer_key,
}

unfoldable pub compare_bytes : Bytes → Bytes → Ordering
compare_bytes [] [] = Ordering.eq
compare_bytes [] (y ∷ ys) = Ordering.lt
compare_bytes (x ∷ xs) [] = Ordering.gt
compare_bytes (x ∷ xs) (y ∷ ys) = elim (compare x y) [
  | Ordering.eq ↦ compare_bytes xs ys
  | Ordering.lt ↦ Ordering.lt
  | Ordering.gt ↦ Ordering.gt
]

abbrev pub is_eq : Ordering → Bool
is_eq Ordering.eq = true
is_eq _ = false

abbrev pub is_lt : Ordering → Bool
is_lt Ordering.lt = true
is_lt _ = false

unfoldable pub reset_session : Worker → Worker
reset_session w = record w {
  send_chain_key = none;
  receive_chain_key = none;
  outbound_counter = 0;
  highest_inbound_counter = 0;
  session_established = false;
  skipped_keys = [];
}

unfoldable pub reset_all : Worker → Worker
unfolding reset_session
reset_all w = record (reset_session w) { identity = none }

-- The members of `new Set(buckets)`, which is sorted afterwards.
unfoldable pub distinct : List ℕ → List ℕ
distinct [] = []
distinct (n ∷ ns) = let rest = distinct ns in if contains ns n then rest else n ∷ rest

-- `.filter((n) => Number.isInteger(n) && n >= 1024)`
unfoldable pub large : List ℕ → List ℕ
large [] = []
large (n ∷ ns) = if leb 1024 n then n ∷ large ns else large ns

abbrev pub or_default : {A : Type 0} → Option A → A → A
or_default none a = a
or_default (some b) a = b

abbrev pub buckets_of : Option (List ℕ) → List ℕ → List ℕ
buckets_of none old = old
buckets_of (some buckets) old = large buckets

-- A `Partial<CryptoConfig>`.
pub record ConfigRequest : Type 0 where
  pub padding_buckets : Option (List ℕ)
  pub max_skipped_message_keys : Option ℕ
  pub protocol_version : Option ℕ

unfoldable pub configured : CryptoConfig → ConfigRequest → CryptoConfig
configured old r = record {
  padding_buckets = sort_numbers (distinct (buckets_of r.padding_buckets old.padding_buckets));
  max_skipped_message_keys =
      min 1024 (max 32 (or_default r.max_skipped_message_keys old.max_skipped_message_keys));
  protocol_version = or_default r.protocol_version old.protocol_version;
}

-- The request `CONFIGURE`.
unfoldable pub configure : Worker → ConfigRequest → Worker
unfolding reset_session
configure w r = reset_session (record w { config = configured w.config r })

module _ (p : Platform) where
  unfoldable pub generate_identity : Bytes → Worker → Bytes × Worker
  unfolding reset_all
  generate_identity private_key w =
      let public_key = p.public_key private_key in
      (
        public_key,
        record (reset_all w) {
          identity = some (record { private = private_key; public = public_key });
        },
      )

  abbrev pub chain_send_info : Bytes
  chain_send_info = p.utf8_encode "onlytwo-v2-chain-send"

  abbrev pub chain_recv_info : Bytes
  chain_recv_info = p.utf8_encode "onlytwo-v2-chain-recv"

  unfoldable pub root_key : Bytes → String → Bytes
  root_key shared profile_hash =
      p.hkdf shared (p.sha256 (p.utf8_encode (String.◌++◌ "onlytwo-v2:" profile_hash)))
        (p.utf8_encode "onlytwo-v2-root") 32

  -- From `resetSession` on, with the shared secret, if it is not rejected.
  unfoldable pub derive_session : Worker → Bool → String → Option Bytes → Reply Bool × Worker
  unfolding reset_session
  derive_session w local_is_lower profile_hash none = (err rejected_peer_key, reset_session w)
  derive_session w local_is_lower profile_hash (some shared) =
      let root = root_key shared profile_hash in
      (
        ok true,
        record (reset_session w) {
          send_chain_key = some (
              p.hkdf root zero_32 (if local_is_lower then chain_send_info else chain_recv_info) 32);
          receive_chain_key = some (
              p.hkdf root zero_32 (if local_is_lower then chain_recv_info else chain_send_info) 32);
          session_established = true;
        },
      )

  unfoldable pub establish_with : Worker → Bytes → String → Option KeyPair → Reply Bool × Worker
  establish_with w peer profile_hash none = (err identity_not_generated, w)
  establish_with w peer profile_hash (some own) =
      if not (length peer == 32)
      then (err invalid_peer_key, w)
      else if is_eq (compare_bytes own.public peer)
      then (err identical_peer_key, w)
      else derive_session w (is_lt (compare_bytes own.public peer)) profile_hash
          (p.x25519 own.private peer)

  unfoldable pub establish_session : Worker → Bytes → String → Reply Bool × Worker
  establish_session w peer profile_hash = establish_with w peer profile_hash w.identity

  pub data Request : Type 0 where
    configures : ConfigRequest → Request
    generates_identity : Bytes → Request
    establishes : Bytes → String → Request
    encrypts : (ℕ → Bytes) → Bytes → EncryptRequest → Request
    decrypts : DecryptRequest → Request
    resets : Request

  pub data Answer : Type 0 where
    done : Answer
    key : Bytes → Answer
    established : Reply Bool → Answer
    encrypted : Reply Encrypted → Answer
    decrypted : Reply Bytes → Answer

  -- `handle`, less the default case, which only throws.
  unfoldable pub handle : Worker → Request → Answer × Worker
  handle w (configures r) = (done, configure w r)
  handle w (generates_identity private_key) =
      let (public_key, after) = generate_identity private_key w in (key public_key, after)
  handle w (establishes peer profile_hash) =
      let (reply, after) = establish_session w peer profile_hash in (established reply, after)
  handle w (encrypts random_bytes nonce r) =
      let (reply, after) = encrypt_binary p random_bytes nonce w r in (encrypted reply, after)
  handle w (decrypts r) = let (reply, after) = decrypt_binary p w r in (decrypted reply, after)
  handle w resets = (done, reset_all w)
