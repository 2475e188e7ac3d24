-- ===== src/Crypto/Toy.antt =====
-- A platform that meets the documented behaviour, to run the worker on: key material counts up, and
-- a ciphertext is its text behind the key's first byte.
use onlytwo.Base.{
  ℕ, ◌+◌, refl, ap, Option, none, some, [], ◌∷◌, ◌==◌, if◌then◌else◌, get_or, replicate, Bytes,
  arith, length-replicate,
}
use onlytwo.Crypto.Platform.{Platform, IsPlatform}

abbrev tag : Bytes → ℕ
tag key = get_or key 0 0

abbrev toy_unseal : Bytes → Bytes → Bytes → Bytes → Option Bytes
toy_unseal key iv aad [] = none
toy_unseal key iv aad (t ∷ text) = if t == tag key then some text else none

abbrev pub toy : Platform
toy = record {
  hkdf = λ ikm salt info n. replicate n (tag ikm + 1);
  sha256 = λ b. b;
  utf8_encode = λ s. [];
  x25519 = λ a b. some ((tag a + tag b) ∷ []);
  public_key = λ a. tag a ∷ replicate 31 0;
  seal = λ key iv aad text. tag key ∷ text;
  unseal = toy_unseal;
}

pub toy-IsPlatform : IsPlatform toy
toy-IsPlatform = record {
  length-hkdf = λ ikm salt info n. length-replicate n (tag ikm + 1);
  unseal-seal = λ key iv aad text. ground arith;
  length-public_key = λ a. refl;
  x25519_comm = λ a b. ap (λ n. some (n ∷ [])) (omega arith);
}
