-- ===== src/Session/Meeting/Tests.antt =====
-- Two sessions on a toy host meet.
use Prim.Native.String.{String}
use onlytwo.Base.{
  refl, true, Option, none, some, [], ◌∷◌, replicate, Bytes, arith, if◌then◌else◌, ◌==◌,
}
use onlytwo.Base.Dict.{same}
use onlytwo.Config.Table.{balanced_profile}
use onlytwo.Crypto.Platform.{Platform, IsPlatform}
use onlytwo.Crypto.Toy.{toy, toy-IsPlatform}
use onlytwo.Protocol.Json.{Fields, get, as_string, utf16_length}
use onlytwo.Protocol.Handshake.{HandshakeMessage, handshake_fields}
use onlytwo.Protocol.Negotiation.{app_version, feature_flags, profile_hash}
use onlytwo.Utils.Hex.{bytes_to_hex}
use onlytwo.Session.Calls.{handshake_of}
use onlytwo.Base.{get_or}
use onlytwo.Crypto.Worker.{Worker}
use onlytwo.Crypto.Worker.Tests.{fresh}
use onlytwo.Crypto.Worker.Chain.{IsSynced}
use onlytwo.Crypto.Worker.Delivery.{IsSending}
use onlytwo.Crypto.Worker.Session.{compare_bytes}
use onlytwo.Session.Calls.{handshake_envelope}
use onlytwo.Session.{Session}
use onlytwo.Session.System.{new_session}
use onlytwo.Session.Calls.{Host, Outside}
use onlytwo.Session.Meeting.{receive_handshake}
use onlytwo.Session.Meeting.Stages.{IsWaiting, IsHost}
use onlytwo.Session.Meeting.Agree.{sessions_meet, IsActive}

abbrev pub digesting : Platform
digesting = record toy { sha256 = λ b. replicate 32 7 }

digesting-IsPlatform : IsPlatform digesting
digesting-IsPlatform = record {
  length-hkdf = toy-IsPlatform.length-hkdf;
  unseal-seal = toy-IsPlatform.unseal-seal;
  length-public_key = toy-IsPlatform.length-public_key;
  x25519_comm = toy-IsPlatform.x25519_comm;
}

-- The public keys of the private keys 1 and 2.
abbrev pub key_1 : Bytes
key_1 = digesting.public_key (1 ∷ [])

abbrev pub key_2 : Bytes
key_2 = digesting.public_key (2 ∷ [])

abbrev pub hello_of : String → HandshakeMessage
hello_of key = record {
  public_key = key;
  profile_id = "balanced";
  profile_hash = "07070707070707070707070707070707";
  app_version = app_version;
  feature_flags = feature_flags;
}

abbrev pub toy_text : Bytes → String
toy_text b = if get_or b 0 0 == 1 then "one" else "two"

abbrev pub toy_key : String → Option Bytes
toy_key t = if same t "one" then some key_1 else some key_2

abbrev pub toy_object : Option String → Bytes
toy_object none = []
toy_object (some s) = if same s "one" then 1 ∷ [] else 2 ∷ []

abbrev pub toy_parse : Bytes → Option Fields
toy_parse b = some (handshake_fields (hello_of (toy_text b)))

abbrev pub toy_host : Host
toy_host = record {
  platform = digesting;
  profile_text = λ profile. "p";
  object_bytes = λ f. toy_object (as_string (get "publicKey" f));
  parse_object = toy_parse;
  bytes_to_base64url = toy_text;
  base64url_to_bytes = toy_key;
}

abbrev pub outside : Outside
outside = record {
  accepts = true;
  is_connected = true;
  pending = [];
  stamp = record { id = "sys_1"; at = 0 };
}

abbrev waiting_with : Bytes → Session
waiting_with key = record new_session { local_public_key = some key; initial_handshake_sent = true }

waiting_with-IsWaiting : (key : Bytes) → IsWaiting (waiting_with key) key
waiting_with-IsWaiting key = record { key = refl; free = refl; calm = refl; silent = refl }

one-IsHost : IsHost toy_host key_2 key_1 balanced_profile
unfolding handshake_fields handshake_of profile_hash bytes_to_hex get utf16_length
one-IsHost = record {
  parse_object-bytes = refl;
  read_key = refl;
  distinct = refl;
  codec = record {
    text = record { some_text = omega arith; short = omega arith };
    digest = omega arith;
  };
}

two-IsHost : IsHost toy_host key_1 key_2 balanced_profile
unfolding handshake_fields handshake_of profile_hash bytes_to_hex get utf16_length
two-IsHost = record {
  parse_object-bytes = refl;
  read_key = refl;
  distinct = refl;
  codec = record {
    text = record { some_text = omega arith; short = omega arith };
    digest = omega arith;
  };
}

abbrev side : Bytes → Worker
side a = record fresh { identity = some (record { private = a; public = digesting.public_key a }) }

abbrev first : Session
first = waiting_with key_1

abbrev second : Session
second = waiting_with key_2

sessions_meet_example :
    let from_t = handshake_envelope toy_host key_2 balanced_profile in
    let from_s = handshake_envelope toy_host key_1 balanced_profile in
    let (s_after, v_after) = receive_handshake toy_host outside first (side (1 ∷ [])) from_t in
    let (t_after, w_after) = receive_handshake toy_host outside second (side (2 ∷ [])) from_s in
    ((words : String) × IsActive s_after words key_2 balanced_profile
      × IsActive t_after words key_1 balanced_profile)
    × ((k : Bytes) × IsSending digesting k v_after × IsSynced digesting k w_after)
    × ((m : Bytes) × IsSending digesting m w_after × IsSynced digesting m v_after)
unfolding compare_bytes
sessions_meet_example =
    sessions_meet toy_host digesting-IsPlatform outside outside (1 ∷ []) (2 ∷ []) (3 ∷ []) first
      second (side (1 ∷ [])) (side (2 ∷ [])) refl refl (waiting_with-IsWaiting key_1)
      (waiting_with-IsWaiting key_2) refl refl two-IsHost one-IsHost refl refl refl refl
