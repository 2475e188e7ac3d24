-- ===== src/Session/System/Turns.antt =====
-- Each turn of a handshake sends no more than its session accounts for.
use onlytwo.Session.System.Frugal.{quiet_lem}
use onlytwo.Session.System.Frugal.{
  marked, pending, sent_count, IsFrugal, rise, same_epoch, weaken, spend, live_epoch,
}
use onlytwo.Base.{
  ℕ, suc, ◌+◌, ◌≤◌, ◌≡◌, none, some, ◌&&◌, not, Option, Bytes, sym, subst, if_either, if_known,
  refl, true, false, inl, inr, [], ◌∷◌, ◌==◌, if◌then◌else◌, arith, subst, Option, if_either,
  if_known, Bytes, some, sym,
}
use Prim.Native.String.{String}
use onlytwo.Base.Dict.{same}
use onlytwo.Protocol.Handshake.{HandshakeMessage}
use onlytwo.Protocol.Envelope.{Envelope}
use onlytwo.Session.{Session, Stamp, Severity, add_system, String}
use onlytwo.Session.Calls.{
  Host, Task, Turn, hashing, transport_send, End, finish, pauses_files, starts, answers, Later,
  stays, connected_again, greets, waits_for_rejoin, welcomes, Next, ends, prepared, checking,
  hash_of, update_file_pause_for_voice, Sending, Outside, quiet, handshake_envelope,
}
use onlytwo.Session.Lifecycle.{disconnected, failed_start, drop_packet}
use onlytwo.Session.Handshake.{
  is_known, send_handshake, send_initial, after_end, after_connected, after_prepared, go_on, thrown,
  thrown_handshake, is_stale, handshake_hashed, reply, met, check, identity_changed, is_peer,
  read_handshake, refuse, is_compatible, handle_read, handle_handshake, on_handshake,
  handshake_checked, handshake_phrased,
}
use onlytwo.Session.System.{Envelope}

module _ (h : Host) where
  pub send-IsFrugal :
      (k : Option Bytes) (next : Next) (rest : Turn) (s t : Session)
      → t.secure_epoch ≡ s.secure_epoch
      → suc (marked s) ≤ marked t
      → IsFrugal 0 s rest
      → IsFrugal 0 s (send_handshake h k next rest t)
  unfolding send_handshake sent_count
  send-IsFrugal none next rest s t e m f = f
  send-IsFrugal (some key) next rest s t e m f = record {
    recent = omega arith;
    thrifty = inl (
      e,
      subst (λ (n : ℕ). 0 + (if n == s.secure_epoch then 1 else 0) + marked s ≤ 0 + marked t)
          (sym e) (omega (arith, m, same_epoch s.secure_epoch)),
    );
  }

  pub after_end-IsFrugal : (e : End) (s : Session) → IsFrugal 0 s (after_end h e s)
  unfolding after_end sent_count
  after_end-IsFrugal finish s = quiet_lem s s [] Task.nothing refl refl refl tt refl
  after_end-IsFrugal pauses_files s =
      quiet_lem s s (update_file_pause_for_voice ∷ []) Task.nothing refl refl refl tt refl
  after_end-IsFrugal starts s =
      quiet_lem s (record s { startup_in_flight = false }) [] Task.nothing refl refl refl tt refl
  after_end-IsFrugal (answers m peer) s =
      quiet_lem s s [] (checking m peer (hash_of h s.profile)) refl refl refl tt refl

  pub send_initial-IsFrugal : (e : End) (s : Session) → IsFrugal 0 s (send_initial h e s)
  unfolding send_initial
  send_initial-IsFrugal e s =
      let sent : Session = record s { initial_handshake_sent = true } in
      if_known (IsFrugal 0 s) s.initial_handshake_sent (λ i. after_end-IsFrugal e s)
        (λ i.
          let more : suc (marked s) ≤ marked sent = rw i (omega arith) in
          send-IsFrugal s.local_public_key (ends e) (after_end h e sent) s sent refl more
            (rise {s = s} {t = sent} refl (omega (arith, more)) (after_end-IsFrugal e sent)))

  pub after_connected-IsFrugal : (s : Session) → IsFrugal 0 s (after_connected h s)
  unfolding after_connected
  after_connected-IsFrugal s =
      if_either (IsFrugal 0 s)
        (is_known s.local_public_key && (not (is_known s.secure) && not s.initial_handshake_sent))
        (send_initial-IsFrugal pauses_files s) (after_end-IsFrugal pauses_files s)

  pub after_prepared-IsFrugal :
      (later : Later) (stamp : Stamp) (s : Session) → IsFrugal 0 s (after_prepared h later stamp s)
  unfolding after_prepared add_system sent_count
  after_prepared-IsFrugal stays stamp s = quiet_lem s s [] Task.nothing refl refl refl tt refl
  after_prepared-IsFrugal connected_again stamp s = after_connected-IsFrugal s
  after_prepared-IsFrugal greets stamp s = send_initial-IsFrugal finish s
  after_prepared-IsFrugal waits_for_rejoin stamp s = record {
    recent = tt;
    thrifty = inl (refl, omega arith);
  }
  after_prepared-IsFrugal welcomes stamp s =
      let told = add_system stamp "Peer rejoined. New secure session started." Severity.info s in
      rise {s = s} {t = told} refl (omega arith) (send_initial-IsFrugal finish told)

  pub go_on-IsFrugal :
      (next : Next) (stamp : Stamp) (s : Session) → IsFrugal 0 s (go_on h next stamp s)
  unfolding go_on
  go_on-IsFrugal (ends e) stamp s = after_end-IsFrugal e s
  go_on-IsFrugal (prepared later) stamp s = after_prepared-IsFrugal later stamp s

  pub drop_packet-IsFrugal : (s : Session) → IsFrugal 0 s (drop_packet s)
  unfolding drop_packet sent_count
  drop_packet-IsFrugal s = record { recent = tt; thrifty = inl (refl, omega arith) }

  pub thrown_handshake-IsFrugal : (s : Session) → IsFrugal 0 s (thrown_handshake s)
  unfolding drop_packet sent_count
  thrown_handshake-IsFrugal s = record { recent = tt; thrifty = inl (refl, omega arith) }

  pub failed_start-IsFrugal : (reason : String) (s : Session) → IsFrugal 0 s (failed_start reason s)
  unfolding failed_start disconnected sent_count
  failed_start-IsFrugal reason s = record {
    recent = tt;
    thrifty = inr (omega arith, omega arith, refl);
  }

  pub thrown-IsFrugal :
      (next : Next) (reason : String) (s : Session) → IsFrugal 0 s (thrown h next reason s)
  unfolding thrown sent_count
  thrown-IsFrugal (ends (answers m peer)) reason s = thrown_handshake-IsFrugal s
  thrown-IsFrugal (ends starts) reason s = failed_start-IsFrugal reason s
  thrown-IsFrugal (ends finish) reason s = record { recent = tt; thrifty = inl (refl, omega arith) }
  thrown-IsFrugal (ends pauses_files) reason s = record {
    recent = tt;
    thrifty = inl (refl, omega arith);
  }
  thrown-IsFrugal (prepared later) reason s = record {
    recent = tt;
    thrifty = inl (refl, omega arith);
  }

  pub handshake_hashed-IsFrugal :
      (m : Sending) (next : Next) (o : Outside) (s : Session)
      → IsFrugal (pending s.secure_epoch (hashing m next)) s (handshake_hashed h m next o s)
  unfolding handshake_hashed
  handshake_hashed-IsFrugal m next o s =
      let reason : String = "Could not queue secure handshake" in
      if_known (IsFrugal (pending s.secure_epoch (hashing m next)) s) (is_stale m s)
        (λ e. weaken (pending s.secure_epoch (hashing m next)) (go_on-IsFrugal next o.stamp s))
        (λ e.
          let live = live_epoch m s e in
          rw live (
            spend (transport_send (handshake_envelope h m.key m.profile)) (
              if_either (IsFrugal 0 s) o.accepts (go_on-IsFrugal next o.stamp s)
                (thrown-IsFrugal next reason s))))

  pub reply-IsFrugal :
      (m : HandshakeMessage) (peer : Bytes) (s : Session) → IsFrugal 0 s (reply h m peer s)
  unfolding reply sent_count
  reply-IsFrugal m peer s =
      let replied : Session = record s { reply_handshake_sent = true } in
      let checks = check h m peer in
      if_known (IsFrugal 0 s) s.reply_handshake_sent
        (λ r. record { recent = tt; thrifty = inl (refl, omega arith) })
        (λ r.
          let more : suc (marked s) ≤ marked replied = rw r (omega arith) in
          send-IsFrugal s.local_public_key (ends (answers m peer)) (checks replied) s replied refl
            more (record { recent = tt; thrifty = inl (refl, omega (arith, more)) }))

  pub met-IsFrugal :
      (own : String) (m : HandshakeMessage) (peer : Bytes) (s : Session)
      → IsFrugal 0 s (met h own m peer s)
  unfolding met sent_count
  met-IsFrugal own m peer s =
      let quiet_here : IsFrugal 0 s (quiet s) = record {
        recent = tt;
        thrifty = inl (refl, omega arith);
      } in
      let changed : IsFrugal 0 s (quiet (identity_changed h s)) = record {
        recent = tt;
        thrifty = inl (refl, omega arith);
      } in
      let begun : Session = record s { establishing = true } in
      let peer_text = h.bytes_to_base64url peer in
      if_either (IsFrugal 0 s) (same peer_text own) quiet_here (
        if_either (IsFrugal 0 s) (is_known s.secure)
          (if_either (λ (t : Session). IsFrugal 0 s (quiet t))
            (is_peer h peer_text s.peer_public_key) quiet_here changed)
          (if_either (IsFrugal 0 s) s.establishing quiet_here
            (rise {s = s} {t = begun} refl (omega arith) (reply-IsFrugal m peer begun))))

  pub handle_read-IsFrugal :
      (own : Bytes) (r : Option (HandshakeMessage × Bytes)) (s : Session)
      → IsFrugal 0 s (handle_read h own r s)
  unfolding handle_read
  handle_read-IsFrugal own none s = drop_packet-IsFrugal s
  handle_read-IsFrugal own (some (m, peer)) s = met-IsFrugal (h.bytes_to_base64url own) m peer s

  pub handle_handshake-IsFrugal :
      (own : Option Bytes) (payload : Bytes) (s : Session)
      → IsFrugal 0 s (handle_handshake h own payload s)
  unfolding handle_handshake sent_count
  handle_handshake-IsFrugal none payload s = record {
    recent = tt;
    thrifty = inl (refl, omega arith);
  }
  handle_handshake-IsFrugal (some own) payload s =
      handle_read-IsFrugal own (read_handshake h payload) s

  pub on_handshake-IsFrugal :
      (epoch : ℕ) (env : Envelope) (s : Session) → IsFrugal 0 s (on_handshake h epoch env s)
  unfolding on_handshake sent_count
  on_handshake-IsFrugal epoch env s =
      if_either (IsFrugal 0 s) (not (epoch == s.secure_epoch))
        (record { recent = tt; thrifty = inl (refl, omega arith) })
        (if_either (IsFrugal 0 s) (not (env.stream_id == 0)) (drop_packet-IsFrugal s)
          (handle_handshake-IsFrugal s.local_public_key env.payload s))

  pub checked-IsFrugal :
      (m : HandshakeMessage) (peer : Bytes) (expected : String) (stamp : Stamp) (s : Session)
      → IsFrugal 0 s (handshake_checked h m peer expected stamp s)
  unfolding handshake_checked refuse add_system sent_count
  checked-IsFrugal m peer expected stamp s =
      if_either (IsFrugal 0 s) (is_compatible h m expected s)
        (record { recent = tt; thrifty = inl (refl, omega arith) })
        (record { recent = tt; thrifty = inl (refl, omega arith) })

  pub phrased-IsFrugal :
      (phrase : Option String) (stamp : Stamp) (s : Session)
      → IsFrugal 0 s (handshake_phrased h phrase stamp s)
  unfolding handshake_phrased add_system sent_count
  phrased-IsFrugal none stamp s = thrown_handshake-IsFrugal s
  phrased-IsFrugal (some phrase) stamp s = record { recent = tt; thrifty = inl (refl, omega arith) }
