-- ===== src/Protocol/Handshake.antt =====
-- The handshake of client/src/protocol/appMessages.ts, between messages and the objects of
-- `JSON.parse`. `none` is a thrown error.
pub mod Roundtrip
pub mod Tests
use Prim.Native.String.{String}
use text.Mathlib.Text
use onlytwo.Base.{
  ℕ, suc, ◌+◌, Bool, not, ◌&&◌, Option, none, some, List, [], ◌∷◌, ltb, leb, length, if◌then◌else◌,
}
use onlytwo.Config.Table.{is_transport_profile_id}
use onlytwo.Protocol.Json.{
  Json, string, array, Items, no_items, item, Fields, no_fields, field, get, as_string,
  require_string, utf16_length, is_hex, keep, ◌>>=◌,
}
use onlytwo.Protocol.Messages.Decode.{bounded_string, bounded_optional_string}
use onlytwo.Protocol.Negotiation.{texts}

pub record HandshakeMessage : Type 0 where
  pub public_key : String
  pub profile_id : String
  pub profile_hash : String
  pub app_version : String
  pub feature_flags : List String

unfoldable pub handshake_fields : HandshakeMessage → Fields
handshake_fields m = field "kind" (string "handshake.v2") (
    field "publicKey" (string m.public_key) (
      field "profileId" (string m.profile_id) (
        field "profileHash" (string m.profile_hash) (
          field "appVersion" (string m.app_version)
            (field "featureFlags" (array (texts m.feature_flags)) no_fields)))))

-- A flag is a text of 1 to 64 units.
abbrev pub good_flag : String → Bool
good_flag s = ltb 0 (utf16_length s) && leb (utf16_length s) 64

unfoldable pub read_flag : Json → Option String
read_flag (string s) = keep (good_flag s) s
read_flag _ = none

unfoldable pub read_flags : Items → Option (List String)
read_flags no_items = some []
read_flags (item v rest) = do s ← read_flag v; ss ← read_flags rest; some (s ∷ ss)

unfoldable pub flags_of : Option Json → Option (List String)
flags_of (some (array items)) = do ss ← read_flags items; keep (leb (length ss) 64) ss
flags_of _ = none

unfoldable pub decode_rest : Fields → List String → Option HandshakeMessage
decode_rest obj flags = do
  profile_id ← require_string obj "profileId"
  profile_hash ← require_string obj "profileHash"
  known ← keep (is_transport_profile_id profile_id) profile_id
  hash ← keep (is_hex 32 profile_hash) profile_hash
  public_key ← bounded_string obj "publicKey" 100
  app_version ← bounded_optional_string obj "appVersion" "unknown" 100
  some (record {
    public_key = public_key;
    profile_id = known;
    profile_hash = hash;
    app_version = app_version;
    feature_flags = flags;
  })

unfoldable pub decode_handshake : Fields → Option HandshakeMessage
decode_handshake obj = do
  kind ← as_string (get "kind" obj)
  flags ← flags_of (get "featureFlags" obj)
  if Text.◌==◌ kind "handshake.v2" then decode_rest obj flags else none
