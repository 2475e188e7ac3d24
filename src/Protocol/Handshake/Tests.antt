-- ===== src/Protocol/Handshake/Tests.antt =====
-- A handshake at concrete values.
use onlytwo.Base.{◌≡◌, refl, some, [], ◌∷◌, arith}
use onlytwo.Config.Table.{is_transport_profile_id}
use onlytwo.Protocol.Json.{utf16_length, is_hex}
use onlytwo.Protocol.Handshake.{HandshakeMessage, handshake_fields, decode_handshake}
use onlytwo.Protocol.Handshake.Roundtrip.{decode_handshake-handshake_fields, FitsHandshake}

abbrev hello : HandshakeMessage
hello = record {
  public_key = "AQID";
  profile_id = "balanced";
  profile_hash = "00112233445566778899aabbccddeeff";
  app_version = "2.0";
  feature_flags = "text.v2" ∷ "voice.pcm16.v2" ∷ [];
}

hello-FitsHandshake : FitsHandshake hello
unfolding utf16_length is_hex is_transport_profile_id
hello-FitsHandshake = record {
  key = record { some_text = omega arith; short = omega arith };
  known_profile = refl;
  hash = refl;
  version = omega arith;
  flags = (refl, (refl, tt));
  few = omega arith;
}

decode_handshake-handshake_fields_example : decode_handshake (handshake_fields hello) ≡ some hello
decode_handshake-handshake_fields_example =
    decode_handshake-handshake_fields hello hello-FitsHandshake
