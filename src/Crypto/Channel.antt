-- ===== src/Crypto/Channel.antt =====
-- client/src/crypto/SecureChannel.ts: `SecureChannel`, over the worker of Crypto/Worker, which answers
-- each request before the next. The bytes of an object (`JSON.stringify`, `JSON.parse` and UTF-8) are
-- parameters. An exception is `err`, or `none` on the way back.
pub mod Carried
pub mod Tests
use onlytwo.Base.{ℕ, ◌+◌, ◌%◌, ◌^◌, Bool, not, Option, none, some, ◌==◌, if◌then◌else◌, Bytes}
use onlytwo.Config.Lanes.{Lane}
use onlytwo.Config.Profile.{TransportProfile}
use onlytwo.Protocol.Json.{Fields, ◌>>=◌}
use onlytwo.Protocol.Messages.{AppMessage, app_fields}
use onlytwo.Protocol.Messages.Decode.{decode_app}
use onlytwo.Protocol.Streams.{stream_for_lane}
use onlytwo.Protocol.Envelope.{AadContext, Envelope, create_aad_context, data_type}
use onlytwo.Crypto.Platform.{Platform}
use onlytwo.Crypto.Worker.{
  Worker, EncryptRequest, DecryptRequest, Encrypted, Reply, ok, err, encrypt_binary, decrypt_binary,
}

pub record SecureChannel : Type 0 where
  pub sequence : ℕ
  pub profile : TransportProfile

pub set_profile : SecureChannel → TransportProfile → SecureChannel
set_profile c profile = record c { profile = profile }

-- `(sequence + 1) >>> 0`, and 1 in place of 0.
unfoldable pub next_sequence : ℕ → ℕ
next_sequence sequence = let next = (sequence + 1) % 2 ^ 32 in if next == 0 then 1 else next

-- The fields of `draft` that are authenticated.
unfoldable pub draft : SecureChannel → Lane → AadContext
draft c lane = record {
  protocol_version = c.profile.protocol_version;
  outer_type = data_type;
  flags = 0;
  stream_id = stream_for_lane lane;
  sequence = next_sequence c.sequence;
}

unfoldable pub envelope_of : AadContext → Lane → Encrypted → Envelope
envelope_of context lane e = record {
  context = context;
  counter = e.counter;
  nonce = e.nonce;
  payload = e.ciphertext;
  lane = lane;
}

unfoldable pub sealed_envelope : AadContext → Lane → Reply Encrypted → Reply Envelope
sealed_envelope context lane (err e) = err e
sealed_envelope context lane (ok e) = ok (envelope_of context lane e)

module _ (p : Platform) where
  unfoldable pub encrypt_app_message :
      (Fields → Bytes)
      → (ℕ → Bytes)
      → Bytes
      → SecureChannel
      → Worker
      → AppMessage
      → Lane
      → Reply Envelope × (SecureChannel × Worker)
  encrypt_app_message encode random_bytes nonce c w m lane =
      let context = draft c lane in
      let (reply, after) = encrypt_binary p random_bytes nonce w (record {
        content = encode (app_fields m);
        context = create_aad_context context c.profile;
      }) in
      (
        sealed_envelope context lane reply,
        (record c { sequence = next_sequence c.sequence }, after),
      )

  -- `decodeAppMessage` of what was decrypted.
  unfoldable pub decoded : (Bytes → Option Fields) → ℕ → Reply Bytes → Option AppMessage
  decoded decode now (err e) = none
  decoded decode now (ok content) = do obj ← decode content; decode_app now obj

  unfoldable pub decrypt_app_message :
      (Bytes → Option Fields) → ℕ → SecureChannel → Worker → Envelope → Option AppMessage × Worker
  decrypt_app_message decode now c w env =
      let (reply, after) = decrypt_binary p w (record {
        ciphertext = env.payload;
        nonce = env.nonce;
        counter = env.counter;
        context = create_aad_context env.context c.profile;
      }) in
      if not (env.outer_type == data_type) then (none, w) else (decoded decode now reply, after)
