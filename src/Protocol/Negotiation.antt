-- ===== src/Protocol/Negotiation.antt =====
-- client/src/protocol/negotiation.ts: the profile's hash and the safety phrase. `profile_text` is
-- `profileHashInput`, and `json_bytes` the UTF-8 of `JSON.stringify`.
pub mod Phrase
use Prim.Native.String.{String, [], ◌∷◌}
use Prim.Native.String
use onlytwo.Base.{ℕ, ◌%◌, List, [], ◌∷◌, map, take, get_or, Bytes}
use onlytwo.Config.Profile.{TransportProfile}
use onlytwo.Crypto.Platform.{Platform}
use onlytwo.Protocol.Json.{
  Json, string, number, whole, array, Items, no_items, item, Fields, no_fields, field,
}
use onlytwo.Utils.Hex.{bytes_to_hex, ordered, sort_texts}

abbrev pub app_version : String
app_version = "onlytwo-client-2.0.0-beta.3"

abbrev pub feature_flags : List String
feature_flags =
    "text.v2" ∷ "file.window.v1" ∷ "voice.pcm16.v2" ∷ "verify.phrase.v1" ∷ "reliable.v1"
    ∷ "voice.vad.v1" ∷ "voice.queue.v1" ∷ "relay.lifecycle.v1" ∷ "room.profile.v1" ∷ []

unfoldable pub words : List String
words =
    "river" ∷ "lunar" ∷ "copper" ∷ "hawk" ∷ "signal" ∷ "stone" ∷ "violet" ∷ "orbit" ∷ "cedar"
    ∷ "silver" ∷ "ember" ∷ "north" ∷ "silent" ∷ "anchor" ∷ "prism" ∷ "comet" ∷ "field" ∷ "winter"
    ∷ "summit" ∷ "clear" ∷ "falcon" ∷ "harbor" ∷ "magnet" ∷ "solar" ∷ "forest" ∷ "quartz" ∷ "velvet"
    ∷ "island" ∷ "canyon" ∷ "brave" ∷ "delta" ∷ "marble" ∷ "radar" ∷ "willow" ∷ "aurora" ∷ "coral"
    ∷ "sable" ∷ "meteor" ∷ "bison" ∷ "atlas" ∷ "frost" ∷ "olive" ∷ "binary" ∷ "echo" ∷ "granite"
    ∷ "lotus" ∷ "nebula" ∷ "onyx" ∷ "pixel" ∷ "raven" ∷ "saffron" ∷ "tundra" ∷ "umbra" ∷ "vector"
    ∷ "yonder" ∷ "zenith" ∷ "amber" ∷ "brook" ∷ "cipher" ∷ "drift" ∷ "forge" ∷ "meadow" ∷ "plain"
    ∷ "root" ∷ []

-- `.join(" ")`
unfoldable pub spaced : List String → String
spaced [] = ""
spaced (w ∷ []) = w
spaced (w ∷ ws) = String.◌++◌ w (String.◌++◌ " " (spaced ws))

unfoldable pub texts : List String → Items
texts [] = no_items
texts (s ∷ ss) = item (string s) (texts ss)

pub record PhraseInput : Type 0 where
  pub local_public_key : Bytes
  pub peer_public_key : Bytes
  pub profile : TransportProfile
  pub session_code : String
  pub peer_app_version : String
  pub peer_feature_flags : List String

module _ (p : Platform) (profile_text : TransportProfile → String) where
  unfoldable pub profile_hash : TransportProfile → String
  profile_hash profile = bytes_to_hex (take 16 (p.sha256 (p.utf8_encode (profile_text profile))))

  unfoldable pub material : PhraseInput → Fields
  material i =
      let (a, b) = ordered (bytes_to_hex i.local_public_key) (bytes_to_hex i.peer_public_key) in
      field "app" (string "onlytwo") (
        field "appVersion" (string app_version) (
          field "peerAppVersion" (string i.peer_app_version) (
            field "featureFlags" (array (texts feature_flags)) (
              field "peerFeatureFlags" (array (texts (sort_texts i.peer_feature_flags))) (
                field "protocolVersion" (number (whole i.profile.protocol_version)) (
                  field "profileHash" (string (profile_hash i.profile)) (
                    field "sessionCodeHash"
                      (string (bytes_to_hex (take 16 (p.sha256 (p.utf8_encode i.session_code)))))
                      (field "identityA" (string a) (field "identityB" (string b) no_fields)))))))))

  -- `bte & 63` is `b % 64`.
  unfoldable pub verification_phrase : (Fields → Bytes) → PhraseInput → String
  verification_phrase json_bytes i =
      spaced (map (λ b. get_or words (b % 64) "") (take 8 (p.sha256 (json_bytes (material i)))))
