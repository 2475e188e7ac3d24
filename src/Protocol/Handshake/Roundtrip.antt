-- ===== src/Protocol/Handshake/Roundtrip.antt =====
-- What `decodeHandshake` of client/src/protocol/appMessages.ts accepts.
use Prim.Native.String.{String}
use onlytwo.Base.{◌≤◌, ◌≡◌, refl, true, some, List, [], ◌∷◌, leb, length, arith, All}
use onlytwo.Config.Table.{is_transport_profile_id}
use onlytwo.Protocol.Json.{get, require_string, optional_string, utf16_length, is_hex}
use onlytwo.Protocol.Messages.Decode.{bounded_string, bounded_optional_string, check_bounds}
use onlytwo.Protocol.Messages.Fit.{IsBounded}
use onlytwo.Protocol.Negotiation.{texts}
use onlytwo.Protocol.Handshake.{
  HandshakeMessage, handshake_fields, good_flag, read_flag, read_flags, flags_of, decode_rest,
  decode_handshake,
}

pub record FitsHandshake (m : HandshakeMessage) : Type 0 where
  pub key : IsBounded 100 m.public_key
  pub known_profile : is_transport_profile_id m.profile_id ≡ true
  pub hash : is_hex 32 m.profile_hash ≡ true
  pub version : utf16_length m.app_version ≤ 100
  pub flags : All (λ s. good_flag s ≡ true) m.feature_flags
  pub few : length m.feature_flags ≤ 64

read_flags-texts :
    (ss : List String) → All (λ s. good_flag s ≡ true) ss → read_flags (texts ss) ≡ some ss
unfolding read_flags texts read_flag
read_flags-texts [] h = refl
read_flags-texts (s ∷ ss) h = rw (h.0, read_flags-texts ss h.1) refl

-- A handshake within its bounds, encoded as an object, is decoded to itself.
pub decode_handshake-handshake_fields :
    (m : HandshakeMessage) → FitsHandshake m → decode_handshake (handshake_fields m) ≡ some m
unfolding decode_handshake decode_rest handshake_fields flags_of require_string bounded_string
    bounded_optional_string check_bounds optional_string get
decode_handshake-handshake_fields m h =
    let few : leb (length m.feature_flags) 64 ≡ true = ground (arith, h.few) in
    let short : leb (utf16_length m.app_version) 100 ≡ true = ground (arith, h.version) in
    rw (read_flags-texts m.feature_flags h.flags, few, h.known_profile, h.hash, short)
      (ground (arith, h.key.some_text, h.key.short))
