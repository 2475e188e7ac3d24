-- ===== src/Crypto/Channel/Tests.antt =====
-- A message from one channel to the other on the toy platform.
use onlytwo.Base.{◌≡◌, refl, ap, some, inl, [], ◌∷◌, Option, Bytes, arith, length-replicate}
use onlytwo.Config.Lanes.{text}
use onlytwo.Config.Table.{balanced_profile}
use onlytwo.Protocol.Json.{Fields, utf16_length}
use onlytwo.Protocol.Messages.{AppMessage, reliable_ack, app_fields}
use onlytwo.Protocol.Messages.Fit.{FitsApp}
use onlytwo.Protocol.Streams.{stream_for_lane}
use onlytwo.Protocol.Envelope.{Envelope, pack_envelope, unpack_envelope, encode_aad}
use onlytwo.Protocol.Envelope
use onlytwo.Protocol.Envelope.Roundtrip.{frame}
use onlytwo.Crypto.Toy.{toy, toy-IsPlatform}
use onlytwo.Crypto.Worker.{ok}
use onlytwo.Crypto.Worker.Tests.{
  fresh, nonce, zeros, sent, sent_lem, fresh-IsSynced, fresh-IsSending,
}
use onlytwo.Crypto.Channel.{
  SecureChannel, next_sequence, draft, envelope_of, sealed_envelope, encrypt_app_message,
  decrypt_app_message,
}
use onlytwo.Crypto.Channel.Carried.{message_carried}

abbrev channel : SecureChannel
channel = record { sequence = 0; profile = balanced_profile }

abbrev note : AppMessage
note = reliable_ack "m"

abbrev written : Fields → Bytes
written f = 7 ∷ []

abbrev parsed : Bytes → Option Fields
parsed b = some (app_fields note)

abbrev outgoing : Envelope
outgoing = envelope_of (draft channel text) text sent

outgoing_lem : (encrypt_app_message toy written zeros nonce channel fresh note text).0 ≡ ok outgoing
unfolding encrypt_app_message sealed_envelope draft stream_for_lane next_sequence
    Envelope.create_aad_context
outgoing_lem = ap (sealed_envelope (draft channel text) text) sent_lem

packed_lem : pack_envelope outgoing balanced_profile ≡ Envelope.ok (frame outgoing)
unfolding pack_envelope draft envelope_of
packed_lem = refl

note-FitsApp : FitsApp note
unfolding FitsApp utf16_length
note-FitsApp = record { some_text = omega arith; short = omega arith }

message_carried_example :
    (arrived : Envelope) × (unpack_envelope (frame outgoing) balanced_profile ≡ Envelope.ok arrived)
    × ((decrypt_app_message toy parsed 0 channel fresh arrived).0 ≡ some note)
unfolding envelope_of
message_carried_example =
    message_carried toy toy-IsPlatform written parsed (0 ∷ []) zeros nonce 0 channel channel fresh
      fresh note text outgoing (frame outgoing) (λ n. length-replicate n 0) refl (omega arith)
      note-FitsApp refl (omega arith) (omega arith) refl fresh-IsSending fresh-IsSynced outgoing_lem
      packed_lem (omega arith) (omega arith) (inl (omega arith))
