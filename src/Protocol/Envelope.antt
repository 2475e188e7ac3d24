-- ===== src/Protocol/Envelope.antt =====
-- client/src/protocol/envelope.ts: the 38-byte frame header, its associated data, and the frame
-- codec. A frame is written field after field, so a `DataView` at fixed offsets is a concatenation;
-- it is read at the source's offsets.
pub mod Roundtrip
pub mod Header
pub mod Checks
mod Tests
use onlytwo.Base.{
  ℕ, ◌+◌, ◌%◌, Bool, true, false, not, ◌&&◌, ◌||◌, List, [], ◌∷◌, ◌++◌, ltb, ◌==◌, if◌then◌else◌,
  length, get_or, take, drop, Bytes, be8, be32, be64, of_be32, of_be64,
}
use onlytwo.Config.Lanes.{Lane, control, text}
use onlytwo.Config.Profile.{TransportProfile}

abbrev pub magic_a : ℕ
magic_a = 0x4f

abbrev pub magic_b : ℕ
magic_b = 0x54

abbrev pub header_bytes : ℕ
header_bytes = 38

abbrev pub nonce_bytes : ℕ
nonce_bytes = 12

-- `OuterType`: a number that the type does not confine to its two names.
abbrev pub handshake_type : ℕ
handshake_type = 1

abbrev pub data_type : ℕ
data_type = 2

pub record AadContext : Type 0 where
  pub protocol_version : ℕ
  pub outer_type : ℕ
  pub flags : ℕ
  pub stream_id : ℕ
  pub sequence : ℕ

pub record Envelope : Type 0 where
  pub context : AadContext
  pub open context use *
  pub counter : ℕ
  pub nonce : Bytes
  pub payload : Bytes
  pub lane : Lane

pub data FrameError : Type 0 where
  invalid_nonce_length profile_mismatch invalid_type frame_too_large : FrameError
  frame_too_small invalid_magic unsupported_version unknown_type : FrameError
  reserved_flags invalid_header_length invalid_payload_length : FrameError

pub data Result (A : Type 0) : Type 0 where
  ok : A → Result A
  err : FrameError → Result A

infixl 5 ◌>>◌
abbrev pub ◌>>◌ : {A : Type 0} → Result (Unit {0}) → Result A → Result A
ok _ >> r = r
err e >> r = err e

-- `if (test) throw error`
abbrev pub throw_if : Bool → FrameError → Result (Unit {0})
throw_if true e = err e
throw_if false e = ok tt

unfoldable pub create_aad_context : AadContext → TransportProfile → AadContext
create_aad_context env profile = record {
  protocol_version = profile.protocol_version;
  outer_type = env.outer_type;
  flags = env.flags;
  stream_id = env.stream_id;
  sequence = env.sequence;
}

-- Bytes 0 to 21 of the header.
abbrev pub prefix : ℕ → ℕ → ℕ → ℕ → ℕ → ℕ → Bytes
prefix version type flags stream_id sequence counter =
    be8 magic_a
    ++ (be8 magic_b
        ++ (be8 version
            ++ (be8 type
                ++ (be8 flags
                    ++ (be8 header_bytes ++ (be32 stream_id ++ (be32 sequence ++ be64 counter)))))))

unfoldable pub encode_aad : AadContext → ℕ → Bytes → Result Bytes
encode_aad c counter nonce = do
  throw_if (not (length nonce == nonce_bytes)) invalid_nonce_length
  ok (prefix c.protocol_version c.outer_type c.flags c.stream_id c.sequence counter ++ nonce)

-- True for the two types of a frame.
abbrev pub is_outer_type : ℕ → Bool
is_outer_type t = t == handshake_type || t == data_type

unfoldable pub pack_envelope : Envelope → TransportProfile → Result Bytes
pack_envelope env profile = do
  throw_if (not (length env.nonce == nonce_bytes)) invalid_nonce_length
  throw_if (not (env.protocol_version == profile.protocol_version)) profile_mismatch
  throw_if (not (is_outer_type env.outer_type)) invalid_type
  throw_if (ltb profile.max_frame_bytes (header_bytes + length env.payload)) frame_too_large
  ok (
      prefix profile.protocol_version env.outer_type env.flags env.stream_id env.sequence
        env.counter
      ++ (env.nonce ++ (be32 (length env.payload) ++ env.payload)))

abbrev pub byte : Bytes → ℕ → ℕ
byte bytes i = get_or bytes i 0

abbrev pub get_uint32 : Bytes → ℕ → ℕ
get_uint32 b i = of_be32 (byte b i) (byte b (i + 1)) (byte b (i + 2)) (byte b (i + 3))

abbrev pub get_big_uint64 : Bytes → ℕ → ℕ
get_big_uint64 b i =
    of_be64 (byte b i) (byte b (i + 1)) (byte b (i + 2)) (byte b (i + 3)) (byte b (i + 4))
      (byte b (i + 5)) (byte b (i + 6)) (byte b (i + 7))

unfoldable pub unpack_envelope : Bytes → TransportProfile → Result Envelope
unpack_envelope bytes profile = do
  throw_if (ltb (length bytes) header_bytes) frame_too_small
  throw_if (ltb profile.max_frame_bytes (length bytes)) frame_too_large
  throw_if (not (byte bytes 0 == magic_a) || not (byte bytes 1 == magic_b)) invalid_magic
  throw_if (not (byte bytes 2 == profile.protocol_version)) unsupported_version
  throw_if (not (is_outer_type (byte bytes 3))) unknown_type
  throw_if (not (byte bytes 4 == 0)) reserved_flags
  throw_if (not (byte bytes 5 == header_bytes)) invalid_header_length
  throw_if (not (get_uint32 bytes 34 + header_bytes == length bytes)) invalid_payload_length
  ok (record {
    context = record {
      protocol_version = byte bytes 2;
      outer_type = byte bytes 3;
      flags = byte bytes 4;
      stream_id = get_uint32 bytes 6;
      sequence = get_uint32 bytes 10;
    };
    counter = get_big_uint64 bytes 14;
    nonce = take 12 (drop 22 bytes);
    payload = drop header_bytes bytes;
    lane = if byte bytes 3 == handshake_type then control else text;
  })
