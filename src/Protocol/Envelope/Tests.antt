-- ===== src/Protocol/Envelope/Tests.antt =====
-- Frames at concrete inputs.
use onlytwo.Base.{ℕ, ◌≡◌, refl, [], ◌∷◌, ◌++◌, replicate, take, Bytes, arith}
use onlytwo.Config.Lanes.{file}
use onlytwo.Config.Table.{balanced_profile}
use onlytwo.Protocol.Envelope.{Envelope, ok, encode_aad, pack_envelope, unpack_envelope}
use onlytwo.Protocol.Envelope.Roundtrip.{received, unpack-pack, pack-unpack}
use onlytwo.Protocol.Envelope.Header.{encode_aad-injective}

abbrev chunk : Envelope
chunk = record {
  context = record {
    protocol_version = 2;
    outer_type = 2;
    flags = 0;
    stream_id = 3;
    sequence = 258;
  };
  counter = 65536;
  nonce = replicate 12 9;
  payload = 1 ∷ 2 ∷ 3 ∷ [];
  lane = file;
}

-- The frame of `chunk`, byte for byte.
abbrev chunk_bytes : Bytes
chunk_bytes =
    0x4f
    ∷ 0x54
    ∷ 2
    ∷ 2
    ∷ 0
    ∷ 38
    ∷ 0
    ∷ 0
    ∷ 0
    ∷ 3
    ∷ 0
    ∷ 0
    ∷ 1
    ∷ 2
    ∷ 0
    ∷ 0
    ∷ 0
    ∷ 0
    ∷ 0
    ∷ 1
    ∷ 0
    ∷ 0
    ∷ (replicate 12 9 ++ (0 ∷ 0 ∷ 0 ∷ 3 ∷ 1 ∷ 2 ∷ 3 ∷ []))

chunk_packed : pack_envelope chunk balanced_profile ≡ ok chunk_bytes
unfolding pack_envelope
chunk_packed = refl

chunk_unpacked : unpack_envelope chunk_bytes balanced_profile ≡ ok (received chunk)
unfolding unpack_envelope
chunk_unpacked = refl

unpack-pack_example : unpack_envelope chunk_bytes balanced_profile ≡ ok (received chunk)
unpack-pack_example = unpack-pack chunk balanced_profile chunk_bytes (omega arith) chunk_packed

pack-unpack_example : pack_envelope (received chunk) balanced_profile ≡ ok chunk_bytes
pack-unpack_example =
    pack-unpack chunk_bytes balanced_profile (received chunk) (omega arith) chunk_unpacked

chunk_aad : encode_aad chunk.context 65536 (replicate 12 9) ≡ ok (take 34 chunk_bytes)
unfolding encode_aad
chunk_aad = refl

encode_aad-injective_example :
    (chunk.context ≡ chunk.context) × (◌≡◌ {A = ℕ} 65536 65536) × (chunk.nonce ≡ chunk.nonce)
encode_aad-injective_example =
    encode_aad-injective chunk.context chunk.context 65536 65536 (replicate 12 9) (replicate 12 9)
      (take 34 chunk_bytes) (omega arith) (omega arith) chunk_aad chunk_aad
