-- ===== src/Crypto/Platform.antt =====
-- What the crypto worker takes from the browser: WebCrypto's HKDF, AES-GCM, X25519 and SHA-256, and
-- `TextEncoder`. Keys are their raw bytes; a rejected `decrypt` is `none`.
use Prim.Native.String.{String}
use onlytwo.Base.{ℕ, ◌≡◌, Option, some, length, Bytes}

pub record Platform : Type 0 where
  pub hkdf : Bytes → Bytes → Bytes → ℕ → Bytes  -- key material, salt, info, length in bytes
  pub sha256 : Bytes → Bytes
  pub utf8_encode : String → Bytes
  pub x25519 : Bytes → Bytes → Option Bytes  -- private key, public key; `none` if it is rejected
  pub public_key : Bytes → Bytes  -- of a private key
  pub seal : Bytes → Bytes → Bytes → Bytes → Bytes  -- key, iv, associated data, plaintext
  pub unseal : Bytes → Bytes → Bytes → Bytes → Option Bytes

-- Documented behaviour: `deriveBits` returns as many bytes as asked for, what AES-GCM encrypts it
-- decrypts under the same key, iv and associated data, a public key has 32 bytes, and two X25519 key
-- pairs agree.
pub record IsPlatform (p : Platform) : Type 0 where
  pub length-hkdf : (ikm salt info : Bytes) (n : ℕ) → length (p.hkdf ikm salt info n) ≡ n
  pub unseal-seal :
      (key iv aad text : Bytes) → p.unseal key iv aad (p.seal key iv aad text) ≡ some text
  pub length-public_key : (a : Bytes) → length (p.public_key a) ≡ 32
  pub x25519_comm : (a b : Bytes) → p.x25519 a (p.public_key b) ≡ p.x25519 b (p.public_key a)
