-- ===== src/Protocol/RelayControl/Tests.antt =====
-- An encrypted frame beside the relay's frames.
use onlytwo.Base.{◌≡◌, refl, false, none, some, [], ◌∷◌, replicate, Bytes}
use onlytwo.Config.Lanes.{control}
use onlytwo.Config.Table.{balanced_profile}
use onlytwo.Protocol.Envelope
use onlytwo.Protocol.Envelope.{unpack_envelope}
use onlytwo.Protocol.RelayControl.{
  is_relay_control_frame, decode_relay_event, unpacked_never_control, decode_type, encode,
  peer_rejoined,
}

rejoined : decode_relay_event (encode 3) ≡ some peer_rejoined
unfolding decode_relay_event decode_type encode
rejoined = refl

abbrev hello : Envelope.Envelope
hello = record {
  context = record { protocol_version = 2; outer_type = 1; flags = 0; stream_id = 0; sequence = 1 };
  counter = 0;
  nonce = replicate 12 0;
  payload = [];
  lane = control;
}

abbrev hello_bytes : Bytes
hello_bytes = 0x4f ∷ 0x54 ∷ 2 ∷ 1 ∷ 0 ∷ 38 ∷ 0 ∷ 0 ∷ 0 ∷ 0 ∷ 0 ∷ 0 ∷ 0 ∷ 1 ∷ replicate 24 0

hello_unpacked : unpack_envelope hello_bytes balanced_profile ≡ Envelope.ok hello
unfolding unpack_envelope
hello_unpacked = refl

unpacked_never_control_example :
    (is_relay_control_frame hello_bytes ≡ false) × (decode_relay_event hello_bytes ≡ none)
unpacked_never_control_example =
    unpacked_never_control hello_bytes balanced_profile hello hello_unpacked
