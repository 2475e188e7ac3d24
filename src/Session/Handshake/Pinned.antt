-- ===== src/Session/Handshake/Pinned.antt =====
-- Handshakes that come once there is a channel.
use Prim.Native.String.{String}
use onlytwo.Base.{ℕ, ◌≡◌, refl, true, not, Option, none, some, [], ◌==◌, if_either, if_known, Bytes}
use onlytwo.Base.Dict.{same}
use onlytwo.Crypto.Channel.{SecureChannel}
use onlytwo.Protocol.Envelope.{Envelope}
use onlytwo.Protocol.Handshake.{HandshakeMessage}
use onlytwo.Session.{Session}
use onlytwo.Session.Calls.{Host, Task, Turn, quiet}
use onlytwo.Session.Lifecycle.{drop_packet}
use onlytwo.Session.Handshake.{
  on_handshake, handle_handshake, handle_read, met, is_peer, identity_changed, read_handshake,
  is_known,
}

-- A turn that ends at once, calls nothing and leaves channel, keys, phrase and phase as they are.
pub record IsPinned (s : Session) (t : Turn) : Type 0 where
  pub silent : t.calls ≡ []
  pub over : t.task ≡ Task.nothing
  pub channel : t.after.secure ≡ s.secure
  pub own : t.after.local_public_key ≡ s.local_public_key
  pub peer : t.after.peer_public_key ≡ s.peer_public_key
  pub phrase : t.after.view.safety_phrase ≡ s.view.safety_phrase
  pub phase : t.after.view.phase ≡ s.view.phase

quiet-IsPinned : (s : Session) → IsPinned s (quiet s)
quiet-IsPinned s = record {
  silent = refl;
  over = refl;
  channel = refl;
  own = refl;
  peer = refl;
  phrase = refl;
  phase = refl;
}

dropped-IsPinned : (s : Session) → IsPinned s (drop_packet s)
unfolding drop_packet
dropped-IsPinned s = record {
  silent = refl;
  over = refl;
  channel = refl;
  own = refl;
  peer = refl;
  phrase = refl;
  phase = refl;
}

module _ (h : Host) (s : Session) (c : SecureChannel) (secure : s.secure ≡ some c) where
  changed-IsPinned : IsPinned s (quiet (identity_changed h s))
  changed-IsPinned = record {
    silent = refl;
    over = refl;
    channel = refl;
    own = refl;
    peer = refl;
    phrase = refl;
    phase = refl;
  }

  met-IsPinned :
      (own : String) (m : HandshakeMessage) (peer : Bytes) → IsPinned s (met h own m peer s)
  unfolding met
  met-IsPinned own m peer =
      let peer_text = h.bytes_to_base64url peer in
      let known : is_known s.secure ≡ true = rw secure refl in
      if_either (IsPinned s) (same peer_text own) (quiet-IsPinned s) (
        if_known (IsPinned s) (is_known s.secure)
          (λ e.
            if_either (λ (t : Session). IsPinned s (quiet t))
              (is_peer h peer_text s.peer_public_key) (quiet-IsPinned s) changed-IsPinned)
          (λ e. cc))

  read-IsPinned :
      (own : Bytes) (r : Option (HandshakeMessage × Bytes)) → IsPinned s (handle_read h own r s)
  unfolding handle_read
  read-IsPinned own none = dropped-IsPinned s
  read-IsPinned own (some (m, peer)) = met-IsPinned (h.bytes_to_base64url own) m peer

  handle-IsPinned :
      (own : Option Bytes) (payload : Bytes) → IsPinned s (handle_handshake h own payload s)
  unfolding handle_handshake
  handle-IsPinned none payload = quiet-IsPinned s
  handle-IsPinned (some own) payload = read-IsPinned own (read_handshake h payload)

-- Once a session has a channel, whatever handshake frame comes, in whatever epoch, ends at once: it
-- calls nothing, and leaves the channel, both keys, the safety phrase and the phase as they are.
pub on_handshake-IsPinned :
    (h : Host) (s : Session) (c : SecureChannel) (epoch : ℕ) (env : Envelope)
    → s.secure ≡ some c
    → IsPinned s (on_handshake h epoch env s)
unfolding on_handshake
on_handshake-IsPinned h s c epoch env secure =
    if_either (IsPinned s) (not (epoch == s.secure_epoch)) (quiet-IsPinned s) (
      if_either (IsPinned s) (not (env.stream_id == 0)) (dropped-IsPinned s)
        (handle-IsPinned h s c secure s.local_public_key env.payload))
