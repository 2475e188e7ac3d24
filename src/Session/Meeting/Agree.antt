-- ===== src/Session/Meeting/Agree.antt =====
-- Two sessions that receive each other's handshake.
use Prim.Native.String.{String}
use onlytwo.Base.{◌≡◌, refl, ap, sym, subst, false, true, some, Bytes, true, false}
use onlytwo.Crypto.Platform.{Platform, IsPlatform}
use onlytwo.Crypto.Worker.{Worker, ok}
use onlytwo.Crypto.Worker.Session.{
  compare_bytes, is_eq, configure, ConfigRequest, establish_session,
}
use onlytwo.Crypto.Worker.Chain.{IsSynced}
use onlytwo.Crypto.Worker.Delivery.{IsSending}
use onlytwo.Config.Profile.{TransportProfile}
use onlytwo.Crypto.Worker.Session.{ConfigRequest}
use onlytwo.Crypto.Worker.Agreement.{HasIdentity, session_agrees}
use onlytwo.Protocol.Negotiation.Phrase.{phrase_agrees}
use onlytwo.Session.{
  Session, Phase, encrypted_unverified, TransportProfile, add_system, system_said,
}
use onlytwo.Session.Calls.{Host, Outside, handshake_envelope, hash_of}
use onlytwo.Session.Handshake.{handshake_phrased}
use onlytwo.Session.Meeting.{receive_handshake, config_request}
use onlytwo.Session.Meeting.Stages.{IsWaiting, IsHost, last, phrase, phrase_input, received_lem}

-- A session with a channel, that shows a phrase.
pub record IsActive (s : Session) (phrase : String) (peer : Bytes) (profile : TransportProfile)
    : Type 0 where
  pub phase : s.view.phase ≡ Phase.active
  pub security : s.view.security ≡ encrypted_unverified
  pub shown : s.view.safety_phrase ≡ some phrase
  pub channel : s.secure ≡ some (record { sequence = 0; profile = profile })
  pub known : s.peer_public_key ≡ some peer

configure-HasIdentity :
    (p : Platform) (a : Bytes) (w : Worker) (r : ConfigRequest)
    → HasIdentity p a w
    → HasIdentity p a (configure w r)
unfolding configure
configure-HasIdentity p a w r i = i

last-IsActive :
    (h : Host) (s : Session) (own peer : Bytes) (profile : TransportProfile)
    (host : IsHost h own peer profile) (waiting : IsWaiting s own)
    (same_profile : profile ≡ s.profile) (o : Outside) (accepts : o.accepts ≡ true)
    → IsActive
        (last h s own peer profile host waiting same_profile o accepts)
        (phrase h s own peer profile host waiting same_profile o accepts)
        peer
        s.profile
unfolding handshake_phrased add_system system_said
last-IsActive h s own peer profile host waiting same_profile o accepts = record {
  phase = refl;
  security = refl;
  shown = refl;
  channel = refl;
  known = refl;
}

-- Two sessions that wait for a peer, in one room and profile, with workers whose identities have
-- different public keys and a shared secret that is not rejected, and hosts that read back what they
-- write: when each receives the other's handshake and its transport takes its own, both become active
-- with a channel and show the same phrase, and what either worker sends is on the chain that the
-- other one receives on.
pub sessions_meet :
    (h : Host) (law : IsPlatform h.platform) (o u : Outside) (a b shared : Bytes) (s t : Session)
    (v w : Worker)
    → o.accepts ≡ true
    → u.accepts ≡ true
    → IsWaiting s (h.platform.public_key a)
    → IsWaiting t (h.platform.public_key b)
    → t.profile ≡ s.profile
    → t.view.room_code ≡ s.view.room_code
    → IsHost h (h.platform.public_key a) (h.platform.public_key b) t.profile
    → IsHost h (h.platform.public_key b) (h.platform.public_key a) s.profile
    → HasIdentity h.platform a v
    → HasIdentity h.platform b w
    → is_eq (compare_bytes (h.platform.public_key a) (h.platform.public_key b)) ≡ false
    → h.platform.x25519 a (h.platform.public_key b) ≡ some shared
    → let from_t = handshake_envelope h (h.platform.public_key b) t.profile in
      let from_s = handshake_envelope h (h.platform.public_key a) s.profile in
      let (s_after, v_after) = receive_handshake h o s v from_t in
      let (t_after, w_after) = receive_handshake h u t w from_s in
      ((words : String) × IsActive s_after words (h.platform.public_key b) s.profile
        × IsActive t_after words (h.platform.public_key a) t.profile)
      × ((k : Bytes) × IsSending h.platform k v_after × IsSynced h.platform k w_after)
      × ((m : Bytes) × IsSending h.platform m w_after × IsSynced h.platform m v_after)
sessions_meet h law o u a b shared s t v w takes_s takes_t waits_s waits_t profile room_same host_s
      host_t i j d x =
    let p = h.platform in
    let pa = p.public_key a in
    let pb = p.public_key b in
    let hash_same : hash_of h t.profile ≡ hash_of h s.profile = ap (hash_of h) profile in
    let (ok_v, ok_w, k, m) =
      session_agrees p law (hash_of h s.profile) a b shared (configure v (config_request s.profile))
        (configure w (config_request t.profile))
        (configure-HasIdentity p a v (config_request s.profile) i)
        (configure-HasIdentity p b w (config_request t.profile) j) d x in
    let ok_t : (establish_session p (configure w (config_request t.profile)) pa
          (hash_of h t.profile)).0
        ≡ ok true =
      rw hash_same ok_w in
    let first = received_lem h s pa pb t.profile host_s waits_s profile o takes_s v ok_v in
    let second = received_lem h t pb pa s.profile host_t waits_t (sym profile) u takes_t w ok_t in
    let shown_s = last-IsActive h s pa pb t.profile host_s waits_s profile o takes_s in
    let shown_t = last-IsActive h t pb pa s.profile host_t waits_t (sym profile) u takes_t in
    let words = phrase h s pa pb t.profile host_s waits_s profile o takes_s in
    let same_words : phrase h t pb pa s.profile host_t waits_t (sym profile) u takes_t ≡ words =
      rw (profile, room_same)
        (phrase_agrees p h.profile_text h.object_bytes
          (phrase_input h s pa pb t.profile host_s waits_s profile o takes_s)) in
    let shown_both =
      subst
        (λ (said : String).
          IsActive (last h t pb pa s.profile host_t waits_t (sym profile) u takes_t) said pa
            t.profile)
        same_words shown_t in
    rw (first, second, hash_same) ((words, shown_s, shown_both), k, m)
