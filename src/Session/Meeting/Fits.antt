-- ===== src/Session/Meeting/Fits.antt =====
-- The handshake that a session sends is within the bounds of the decoder.
use onlytwo.Base.{◌≤◌, ◌≡◌, refl, true, length, Bytes, arith, All}
use onlytwo.Config.Profile.{TransportProfile, TransportProfileId, balanced, low_data, voice_first}
use onlytwo.Config.Table.{profile_key, is_transport_profile_id}
use onlytwo.Protocol.Json.{utf16_length}
use onlytwo.Protocol.Messages.Fit.{IsBounded}
use onlytwo.Protocol.Handshake.{good_flag}
use onlytwo.Utils.Hex.Digits.{is_hex-bytes_to_hex}
use onlytwo.Base.{take, length-take}
use onlytwo.Protocol.Handshake.Roundtrip.{FitsHandshake}
use onlytwo.Protocol.Negotiation.{feature_flags, app_version, profile_hash}
use onlytwo.Session.Calls.{Host, handshake_of}

-- What the codec makes of a key is a text of 1 to 100 units, and a digest has 16 bytes at least.
pub record IsCodec (h : Host) (key : Bytes) (profile : TransportProfile) : Type 0 where
  pub text : IsBounded 100 (h.bytes_to_base64url key)
  pub digest : 16 ≤ length (h.platform.sha256 (h.platform.utf8_encode (h.profile_text profile)))

profile_known : (id : TransportProfileId) → is_transport_profile_id (profile_key id) ≡ true
unfolding is_transport_profile_id
profile_known balanced = refl
profile_known low_data = refl
profile_known voice_first = refl
profile_known TransportProfileId.maximum_privacy = refl

version_short : utf16_length app_version ≤ 100
unfolding utf16_length
version_short = omega arith

flags_good : All (λ s. good_flag s ≡ true) feature_flags
unfolding utf16_length
flags_good = (refl, (refl, (refl, (refl, (refl, (refl, (refl, (refl, (refl, tt)))))))))

pub handshake-FitsHandshake :
    (h : Host) (key : Bytes) (profile : TransportProfile)
    → IsCodec h key profile
    → FitsHandshake (handshake_of h key profile)
unfolding handshake_of profile_hash
handshake-FitsHandshake h key profile codec =
    let digest = h.platform.sha256 (h.platform.utf8_encode (h.profile_text profile)) in
    let long = codec.digest in
    let n = length-take 16 digest in
    record {
      key = codec.text;
      known_profile = profile_known profile.id;
      hash = is_hex-bytes_to_hex 16 (take 16 digest) (ground (arith, n, long));
      version = version_short;
      flags = flags_good;
      few = omega arith;
    }
