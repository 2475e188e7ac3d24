-- ===== src/Session/Handshake.antt =====
-- The handshake of client/src/session/SessionController.ts: `sendHandshake`, `handleHandshake`, and what
-- goes on after `prepareFreshCryptoEpoch`. Keys and profiles, which the source compares as objects,
-- are compared by their bytes and by their id.
pub mod Pinned
use Prim.Native.String.{String}
use onlytwo.Base.{
  ℕ, Bool, true, false, not, ◌&&◌, ◌||◌, Option, none, some, List, [], ◌∷◌, ◌++◌, ◌==◌,
  if◌then◌else◌, Bytes,
}
use onlytwo.Base.Dict.{same}
use onlytwo.Config.Profile.{TransportProfile, TransportProfileId}
use onlytwo.Config.Table.{profile_key}
use onlytwo.Crypto.Channel.{SecureChannel}
use onlytwo.Crypto.Worker.Session.{compare_bytes, is_eq}
use onlytwo.Protocol.Json.{◌>>=◌}
use onlytwo.Protocol.Envelope.{Envelope, handshake_type}
use onlytwo.Protocol.Handshake.{HandshakeMessage, decode_handshake}
use onlytwo.Protocol.Negotiation.{app_version, feature_flags, verification_phrase}
use onlytwo.Session.{
  Session, SessionViewState, Phase, SecurityState, Stamp, encrypted_unverified, verification_failed,
  Severity, patch, add_system,
}
use onlytwo.Session.Calls.{
  Host, Call, End, finish, pauses_files, starts, answers, Later, stays, connected_again, greets,
  waits_for_rejoin, welcomes, Next, ends, prepared, Sending, Task, hashing, checking, securing,
  phrasing, Turn, quiet, waits, Outside, hash_of, handshake_envelope, transport_send,
  crypto_configure, crypto_establish_session, update_file_pause_for_voice,
}
use onlytwo.Session.Lifecycle.{drop_packet, failed_start}

abbrev pub is_known {ℓ} : {A : Type ℓ} → Option A → Bool
is_known none = false
is_known (some a) = true

abbrev pub is_key : Bytes → Option Bytes → Bool
is_key key none = false
is_key key (some k) = is_eq (compare_bytes key k)

-- Whether another epoch, key or profile stands since `sendHandshake` began.
unfoldable pub is_stale : Sending → Session → Bool
is_stale m s =
    not (m.lifecycle == s.lifecycle_epoch && m.epoch == s.secure_epoch)
    || (not (is_key m.key s.local_public_key)
        || not (same (profile_key m.profile.id) (profile_key s.profile.id)))

-- `flags.includes(flag)`
unfoldable pub includes : List String → String → Bool
includes [] f = false
includes (g ∷ gs) f = same g f || includes gs f

unfoldable pub includes_all : List String → List String → Bool
includes_all flags [] = true
includes_all flags (f ∷ fs) = includes flags f && includes_all flags fs

abbrev pub incompatible_peer : String
incompatible_peer = "This peer is using an incompatible OnlyTwo version. Refresh both browsers."

-- `finally`, and the `catch` of `onEnvelope`.
abbrev pub thrown_handshake : Session → Turn
thrown_handshake s = drop_packet (record s { establishing = false })

module _ (h : Host) where
  -- `sendHandshake`, up to its await; `rest` is what follows when there is no key.
  unfoldable pub send_handshake : Option Bytes → Next → Turn → Session → Turn
  send_handshake none next rest s = rest
  send_handshake (some key) next rest s = waits s [] (
      hashing
        (record {
          key = key;
          lifecycle = s.lifecycle_epoch;
          epoch = s.secure_epoch;
          profile = s.profile;
        })
        next)

  -- `handleHandshake`, from `profileHash(this.profile)` on.
  abbrev pub check : HandshakeMessage → Bytes → Session → Turn
  check m peer s = waits s [] (checking m peer (hash_of h s.profile))

  unfoldable pub after_end : End → Session → Turn
  after_end finish s = quiet s
  after_end pauses_files s = waits s (update_file_pause_for_voice ∷ []) Task.nothing
  after_end starts s = quiet (record s { startup_in_flight = false })
  after_end (answers m peer) s = check m peer s

  -- `sendInitialHandshake` and what follows it.
  unfoldable pub send_initial : End → Session → Turn
  send_initial e s =
      let sent = record s { initial_handshake_sent = true } in
      if s.initial_handshake_sent
      then after_end e s
      else send_handshake s.local_public_key (ends e) (after_end e sent) sent

  -- `onConnectionStatus`, once there is a key or there cannot be one.
  unfoldable pub after_connected : Session → Turn
  after_connected s =
      if is_known s.local_public_key && (not (is_known s.secure) && not s.initial_handshake_sent)
      then send_initial pauses_files s
      else after_end pauses_files s

  unfoldable pub after_prepared : Later → Stamp → Session → Turn
  after_prepared stays stamp s = quiet s
  after_prepared connected_again stamp s = after_connected s
  after_prepared greets stamp s = send_initial finish s
  after_prepared waits_for_rejoin stamp s = quiet (
      add_system stamp "Peer disconnected. Waiting for rejoin." Severity.info (
        patch s (λ v. record v {
          phase = Phase.waiting;
          notice = some "Peer disconnected. Waiting for rejoin…";
        })))
  after_prepared welcomes stamp s =
      send_initial finish
        (add_system stamp "Peer rejoined. New secure session started." Severity.info s)

  unfoldable pub go_on : Next → Stamp → Session → Turn
  go_on (ends e) stamp s = after_end e s
  go_on (prepared later) stamp s = after_prepared later stamp s

  -- What a thrown `sendHandshake` ends.
  unfoldable pub thrown : Next → String → Session → Turn
  thrown (ends (answers m peer)) reason s = thrown_handshake s
  thrown (ends starts) reason s = failed_start reason s
  thrown _ reason s = quiet s

  -- `sendHandshake`, after its await.
  unfoldable pub handshake_hashed : Sending → Next → Outside → Session → Turn
  handshake_hashed m next o s =
      let sends = transport_send (handshake_envelope h m.key m.profile) in
      let rest =
        if o.accepts
        then go_on next o.stamp s
        else thrown next "Could not queue secure handshake" s in
      if is_stale m s then go_on next o.stamp s else record rest { calls = sends ∷ rest.calls }

  -- `sendReplyHandshake`, and the check.
  unfoldable pub reply : HandshakeMessage → Bytes → Session → Turn
  reply m peer s =
      let replied = record s { reply_handshake_sent = true } in
      if s.reply_handshake_sent
      then check m peer s
      else send_handshake s.local_public_key (ends (answers m peer)) (check m peer replied) replied

  abbrev pub identity_changed : Session → Session
  identity_changed s = patch s (λ v. record v {
    security = verification_failed;
    notice = some "Peer identity changed. Leave this room.";
  })

  abbrev pub is_peer : String → Option Bytes → Bool
  is_peer peer none = false
  is_peer peer (some k) = same (h.bytes_to_base64url k) peer

  -- `handleHandshake`, up to its first await, with the keys as texts.
  unfoldable pub met : String → HandshakeMessage → Bytes → Session → Turn
  met own m peer s =
      let peer_text = h.bytes_to_base64url peer in
      if same peer_text own
      then quiet s
      else if is_known s.secure
      then quiet (if is_peer peer_text s.peer_public_key then s else identity_changed s)
      else if s.establishing
      then quiet s
      else reply m peer (record s { establishing = true })

  unfoldable pub read_handshake : Bytes → Option (HandshakeMessage × Bytes)
  read_handshake payload = do
    obj ← h.parse_object payload
    m ← decode_handshake obj
    peer ← h.base64url_to_bytes m.public_key
    some (m, peer)

  unfoldable pub handle_read : Bytes → Option (HandshakeMessage × Bytes) → Session → Turn
  handle_read own none s = drop_packet s
  handle_read own (some (m, peer)) s = met (h.bytes_to_base64url own) m peer s

  unfoldable pub handle_handshake : Option Bytes → Bytes → Session → Turn
  handle_handshake none payload s = quiet s
  handle_handshake (some own) payload s = handle_read own (read_handshake payload) s

  -- `onEnvelope` of a handshake frame that came in `epoch`.
  unfoldable pub on_handshake : ℕ → Envelope → Session → Turn
  on_handshake epoch env s =
      if not (epoch == s.secure_epoch)
      then quiet s
      else if not (env.stream_id == 0)
      then drop_packet s
      else handle_handshake s.local_public_key env.payload s

  unfoldable pub is_compatible : HandshakeMessage → String → Session → Bool
  is_compatible m expected s =
      (same m.app_version app_version && same m.profile_id (profile_key s.profile.id))
      && (same m.profile_hash expected && includes_all m.feature_flags feature_flags)

  unfoldable pub refuse : Stamp → Session → Session
  refuse stamp s = add_system stamp incompatible_peer Severity.error (
      patch (record s { establishing = false })
        (λ v. record v { security = verification_failed; notice = some incompatible_peer }))

  -- `handleHandshake`, once the own hash is known.
  unfoldable pub handshake_checked : HandshakeMessage → Bytes → String → Stamp → Session → Turn
  handshake_checked m peer expected stamp s =
      if is_compatible m expected s
      then waits s (crypto_configure s.profile ∷ crypto_establish_session peer expected ∷ [])
          (securing m peer)
      else quiet (refuse stamp s)

  -- The call of `verificationPhrase`, which throws when there is no local key.
  unfoldable pub phrase_of : Option Bytes → HandshakeMessage → Bytes → Session → Option String
  phrase_of none m peer s = none
  phrase_of (some own) m peer s = some (
      verification_phrase h.platform h.profile_text h.object_bytes (record {
        local_public_key = own;
        peer_public_key = peer;
        profile = s.profile;
        session_code = s.view.room_code;
        peer_app_version = m.app_version;
        peer_feature_flags = m.feature_flags;
      }))

  -- `handleHandshake`, once the worker has established the session.
  unfoldable pub handshake_secured : HandshakeMessage → Bytes → Session → Turn
  handshake_secured m peer s =
      let secured = record s {
        secure = some (record { sequence = 0; profile = s.profile });
        peer_public_key = some peer;
      } in
      waits secured [] (phrasing (phrase_of s.local_public_key m peer s))

  -- The end of `handleHandshake`.
  unfoldable pub handshake_phrased : Option String → Stamp → Session → Turn
  handshake_phrased none stamp s = thrown_handshake s
  handshake_phrased (some phrase) stamp s =
      let active = patch s (λ v. record v {
        phase = Phase.active;
        profile_id = s.profile.id;
        security = encrypted_unverified;
        safety_phrase = some phrase;
        notice = some "Encrypted. Verify the phrase.";
        invalid_packets = 0;
      }) in
      let said =
        add_system stamp "Secure session ready. Verify the safety phrase." Severity.info active in
      quiet (record said { establishing = false })
