-- ===== src/Session/Meeting/Stages.antt =====
-- The turns of a handshake that goes well.
use onlytwo.Base.{◌≡◌, some, none, refl, true, false, Bytes, ==_refl, arith, [], ◌∷◌}
use Prim.Native.Nat.{Ordering}
use Prim.Native.String.{String}
use onlytwo.Base.{Bool}
use onlytwo.Crypto.Worker.{Worker, Reply, ok}
use onlytwo.Crypto.Worker.Session.{configure, establish_session}
use onlytwo.Protocol.Negotiation.{verification_phrase, PhraseInput}
use onlytwo.Session.Resume.{resume}
use onlytwo.Session.Meeting.{config_request, perform, drive, receive_handshake}
use onlytwo.Crypto.Worker.Session.{compare_bytes}
use onlytwo.Base.Dict.{same, same_refl}
use onlytwo.Config.Profile.{TransportProfile}
use onlytwo.Protocol.Handshake.{HandshakeMessage, handshake_fields}
use onlytwo.Protocol.Handshake.Roundtrip.{decode_handshake-handshake_fields}
use onlytwo.Session.Meeting.Fits.{IsCodec, handshake-FitsHandshake}
use onlytwo.Config.Table.{profile_key}
use onlytwo.Protocol.Negotiation.{app_version, feature_flags}
use onlytwo.Session.{Session}
use onlytwo.Session.Calls.{
  Host, Sending, handshake_of, handshake_envelope, waits, hashing, ends, answers, Outside, checking,
  securing, hash_of, transport_send, crypto_configure, crypto_establish_session,
}
use onlytwo.Session.Handshake.{
  read_handshake, on_handshake, handle_handshake, handle_read, met, reply, send_handshake, is_stale,
  handshake_hashed, go_on, after_end, is_compatible, handshake_checked, handshake_secured,
  handshake_phrased, phrase_of, includes_all, includes,
}

compare_refl : (a : Bytes) → compare_bytes a a ≡ Ordering.eq
unfolding compare_bytes
compare_refl [] = refl
compare_refl (x ∷ xs) = let rest = compare_refl xs in ground (arith, rest)

all_included : includes_all feature_flags feature_flags ≡ true
unfolding includes_all includes
all_included = refl

-- A session that waits for its peer's first handshake, with its own key.
pub record IsWaiting (s : Session) (own : Bytes) : Type 0 where
  pub key : s.local_public_key ≡ some own
  pub free : s.secure ≡ none
  pub calm : s.establishing ≡ false
  pub silent : s.reply_handshake_sent ≡ false

-- What is known of the host: it reads back the object and the key that it writes, whose text fits its
-- bounds, and texts of different keys differ.
pub record IsHost (h : Host) (own peer : Bytes) (profile : TransportProfile) : Type 0 where
  pub parse_object-bytes :
      h.parse_object (h.object_bytes (handshake_fields (handshake_of h peer profile)))
      ≡ some (handshake_fields (handshake_of h peer profile))
  pub read_key : h.base64url_to_bytes (h.bytes_to_base64url peer) ≡ some peer
  pub distinct : same (h.bytes_to_base64url peer) (h.bytes_to_base64url own) ≡ false
  pub codec : IsCodec h peer profile

module _ (h : Host) (s : Session) (own peer : Bytes) (profile : TransportProfile)
    (host : IsHost h own peer profile) (waiting : IsWaiting s own)
    (same_profile : profile ≡ s.profile) where
  abbrev m : HandshakeMessage
  m = handshake_of h peer profile

  abbrev begun : Session
  begun = record s { establishing = true; reply_handshake_sent = true }

  abbrev sending : Sending
  sending = record {
    key = own;
    lifecycle = s.lifecycle_epoch;
    epoch = s.secure_epoch;
    profile = s.profile;
  }

  read_lem :
      read_handshake h (h.object_bytes (handshake_fields (handshake_of h peer profile)))
      ≡ some (handshake_of h peer profile, peer)
  unfolding read_handshake
  read_lem =
      rw
        (
          host.parse_object-bytes,
          decode_handshake-handshake_fields m (handshake-FitsHandshake h peer profile host.codec),
        )
        (unfold handshake_of in rw host.read_key)

  begun_lem :
      on_handshake h s.secure_epoch (handshake_envelope h peer profile) s
      ≡ waits begun [] (hashing sending (ends (answers m peer)))
  unfolding on_handshake handshake_envelope handle_handshake handle_read met reply send_handshake
  begun_lem =
      rw
        (
          ==_refl s.secure_epoch,
          waiting.key,
          read_lem,
          host.distinct,
          waiting.free,
          waiting.calm,
          waiting.silent,
        )
        refl

  module _ (o : Outside) (accepts : o.accepts ≡ true) where
    live_lem : is_stale sending begun ≡ false
    unfolding is_stale
    live_lem =
        rw
          (
            ==_refl s.lifecycle_epoch,
            ==_refl s.secure_epoch,
            waiting.key,
            compare_refl own,
            same_refl (profile_key s.profile.id),
          )
          refl

    hashed_lem :
        handshake_hashed h sending (ends (answers m peer)) o begun
        ≡ waits begun
            (transport_send (handshake_envelope h own s.profile) ∷ [])
            (checking m peer (hash_of h s.profile))
    unfolding handshake_hashed go_on after_end
    hashed_lem = rw (live_lem, accepts) refl

    compatible_lem : is_compatible h m (hash_of h s.profile) begun ≡ true
    unfolding is_compatible handshake_of
    compatible_lem =
        rw
          (
            same_profile,
            same_refl app_version,
            same_refl (profile_key s.profile.id),
            same_refl (hash_of h s.profile),
            all_included,
          )
          refl

    checked_lem :
        handshake_checked h m peer (hash_of h s.profile) o.stamp begun
        ≡ waits begun
            (crypto_configure s.profile ∷ crypto_establish_session peer (hash_of h s.profile) ∷ [])
            (securing m peer)
    unfolding handshake_checked
    checked_lem = rw compatible_lem refl

    abbrev secured : Session
    secured = record begun {
      secure = some (record { sequence = 0; profile = s.profile });
      peer_public_key = some peer;
    }

    -- The worker's session, after `configure`.
    abbrev pub established : Worker → Reply Bool × Worker
    established w =
        establish_session h.platform (configure w (config_request s.profile)) peer
          (hash_of h s.profile)

    abbrev pub phrase_input : PhraseInput
    phrase_input = record {
      local_public_key = own;
      peer_public_key = peer;
      profile = s.profile;
      session_code = s.view.room_code;
      peer_app_version = app_version;
      peer_feature_flags = feature_flags;
    }

    abbrev pub phrase : String
    phrase = verification_phrase h.platform h.profile_text h.object_bytes phrase_input

    abbrev pub last : Session
    last = (handshake_phrased h (some phrase) o.stamp secured).after

    pub received_lem :
        (w : Worker)
        → (established w).0 ≡ ok true
        → receive_handshake h o s w (handshake_envelope h peer profile) ≡ (last, (established w).1)
    unfolding receive_handshake drive perform resume handshake_secured phrase_of handshake_of
        handshake_phrased
    received_lem w e = rw (begun_lem, hashed_lem, checked_lem, e, waiting.key) refl
