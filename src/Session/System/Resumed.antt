-- ===== src/Session/System/Resumed.antt =====
-- So does each turn of the session's life, and each task when it goes on.
use onlytwo.Session.System.Frugal.{pending, sent_count, IsFrugal, rise}
use onlytwo.Session.System.Turns.{
  send-IsFrugal, send_initial-IsFrugal, after_connected-IsFrugal, after_prepared-IsFrugal,
  thrown_handshake-IsFrugal, failed_start-IsFrugal, handshake_hashed-IsFrugal, checked-IsFrugal,
  phrased-IsFrugal,
}
use onlytwo.Base.{
  ℕ, ◌≡◌, some, ◌||◌, not, Bytes, if_either, if_known, refl, true, false, inl, inr, ◌==◌, arith,
  if_either, if_known, Bytes, some,
}
use Prim.Native.String.{String}
use onlytwo.Config.Profile.{TransportProfileId}
use onlytwo.Session.{Session, add_system, String, Phase, patch, TransportProfileId}
use onlytwo.Session.Calls.{
  Host, Task, hashing, finish, starts, Later, stays, connected_again, greets, waits_for_rejoin,
  welcomes, prepared, checking, Answer, securing, phrasing, resetting, identifying, requesting,
  connecting, fails, identity, room, Outside,
}
use onlytwo.Session.Lifecycle.{disconnected, fresh_epoch, prepare}
use onlytwo.Session.Handshake.{is_known, after_prepared, handshake_secured}
use onlytwo.Transport.Reconnect.{ConnectionStatus, reconnecting, connected, failed}
use onlytwo.Protocol.RelayControl.{
  RelayEvent, peer_present, peer_disconnected, peer_rejoined, session_ended,
}
use onlytwo.Session.Resume.{
  epoch_reset, epoch_identified, started, start, start_identified, start_connected, status_turn,
  on_connection_status, on_relay_event, resume,
}

module _ (h : Host) (o : Outside) where
  pub prepare-IsFrugal :
      (notice : String) (later : Later) (s : Session) → IsFrugal 0 s (prepare o notice later s)
  unfolding prepare fresh_epoch sent_count
  prepare-IsFrugal notice later s = record {
    recent = tt;
    thrifty = inr (omega arith, omega arith, refl);
  }

  pub reset-IsFrugal :
      (lifecycle : ℕ) (later : Later) (s : Session)
      → IsFrugal 0 s (epoch_reset h o lifecycle later s)
  unfolding epoch_reset sent_count
  reset-IsFrugal lifecycle later s =
      if_either (IsFrugal 0 s) (lifecycle == s.lifecycle_epoch)
        (record { recent = tt; thrifty = inl (refl, omega arith) })
        (after_prepared-IsFrugal h later o.stamp s)

  pub identified-IsFrugal :
      (lifecycle : ℕ) (later : Later) (key : Bytes) (s : Session)
      → IsFrugal 0 s (epoch_identified h o lifecycle later key s)
  unfolding epoch_identified
  identified-IsFrugal lifecycle later key s =
      let keyed : Session = record s { local_public_key = some key } in
      let sent : Session = record keyed { initial_handshake_sent = true } in
      let goes_on : IsFrugal 0 s (after_prepared h later o.stamp keyed) =
        rise {s = s} {t = keyed} refl (omega arith)
          (after_prepared-IsFrugal h later o.stamp keyed) in
      if_either (IsFrugal 0 s) (not (lifecycle == s.lifecycle_epoch))
        (after_prepared-IsFrugal h later o.stamp s)
        (if_known (IsFrugal 0 s) (not o.is_connected || s.initial_handshake_sent) (λ e. goes_on)
          (λ e.
            let unsent : s.initial_handshake_sent ≡ false = ground (arith, e) in
            send-IsFrugal h (some key) (prepared later) (after_prepared h later o.stamp keyed) s
              sent refl (rw unsent (omega arith)) goes_on))

  pub start-IsFrugal :
      (code : String) (phase : Phase) (id : TransportProfileId) (s : Session)
      → IsFrugal 0 s (start h o code phase id s)
  unfolding start started disconnected sent_count
  start-IsFrugal code phase id s = record {
    recent = tt;
    thrifty = inr (omega arith, omega arith, refl);
  }

  pub connected-IsFrugal :
      (lifecycle : ℕ) (s : Session) → IsFrugal 0 s (start_connected h o lifecycle s)
  unfolding start_connected sent_count
  connected-IsFrugal lifecycle s =
      let waiting : Session =
        patch s (λ v. record v {
          phase = Phase.waiting;
          notice = some "Waiting for the other person.";
        }) in
      if_either (IsFrugal 0 s) (lifecycle == s.lifecycle_epoch)
        (rise {s = s} {t = waiting} refl (omega arith) (send_initial-IsFrugal h starts waiting))
        (record { recent = tt; thrifty = inl (refl, omega arith) })

  pub status-IsFrugal :
      (status : ConnectionStatus) (s : Session) → IsFrugal 0 s (status_turn h o status s)
  unfolding status_turn add_system sent_count
  status-IsFrugal reconnecting s =
      prepare-IsFrugal "Connection interrupted. Reconnecting securely…" stays s
  status-IsFrugal connected s =
      if_either (IsFrugal 0 s) (is_known s.local_public_key) (after_connected-IsFrugal h s)
        (prepare-IsFrugal "Establishing a fresh secure session…" connected_again s)
  status-IsFrugal failed s = record { recent = tt; thrifty = inl (refl, omega arith) }
  status-IsFrugal _ s = record { recent = tt; thrifty = inl (refl, omega arith) }

  pub on_status-IsFrugal :
      (status : ConnectionStatus) (s : Session) → IsFrugal 0 s (on_connection_status h o status s)
  unfolding on_connection_status
  on_status-IsFrugal status s =
      let noted : Session = patch s (λ v. record v { connection = status }) in
      rise {s = s} {t = noted} refl (omega arith) (status-IsFrugal status noted)

  pub on_relay-IsFrugal :
      (event : RelayEvent) (s : Session) → IsFrugal 0 s (on_relay_event h o event s)
  unfolding on_relay_event disconnected sent_count
  on_relay-IsFrugal peer_present s =
      if_either (IsFrugal 0 s)
        (is_known s.secure || (is_known s.peer_public_key || not (is_known s.local_public_key)))
        (prepare-IsFrugal "Establishing a fresh secure session…" greets s)
        (send_initial-IsFrugal h finish s)
  on_relay-IsFrugal peer_disconnected s =
      prepare-IsFrugal "Peer disconnected. Waiting for rejoin…" waits_for_rejoin s
  on_relay-IsFrugal peer_rejoined s =
      prepare-IsFrugal "Peer rejoined. Establishing a new secure session…" welcomes s
  on_relay-IsFrugal session_ended s = record {
    recent = tt;
    thrifty = inr (omega arith, omega arith, refl);
  }

  pub resume-IsFrugal :
      (task : Task) (answer : Answer) (s : Session)
      → IsFrugal (pending s.secure_epoch task) s (resume h o task answer s)
  unfolding resume handshake_secured start_identified sent_count
  resume-IsFrugal (hashing m next) answer s = handshake_hashed-IsFrugal h m next o s
  resume-IsFrugal (checking m peer expected) answer s = checked-IsFrugal h m peer expected o.stamp s
  resume-IsFrugal (securing m peer) (fails reason) s = thrown_handshake-IsFrugal h s
  resume-IsFrugal (phrasing phrase) answer s = phrased-IsFrugal h phrase o.stamp s
  resume-IsFrugal (resetting lifecycle later) answer s = reset-IsFrugal lifecycle later s
  resume-IsFrugal (identifying lifecycle later) (identity key) s =
      identified-IsFrugal lifecycle later key s
  resume-IsFrugal (requesting phase) (room code id) s = start-IsFrugal code phase id s
  resume-IsFrugal (requesting phase) (fails reason) s = failed_start-IsFrugal h reason s
  resume-IsFrugal (Task.starting lifecycle code) (identity key) s =
      if_either (IsFrugal 0 s) (lifecycle == s.lifecycle_epoch)
        (record { recent = tt; thrifty = inl (refl, omega arith) })
        (record { recent = tt; thrifty = inl (refl, omega arith) })
  resume-IsFrugal (Task.starting lifecycle code) (fails reason) s = failed_start-IsFrugal h reason s
  resume-IsFrugal (connecting lifecycle) Answer.done s = connected-IsFrugal lifecycle s
  resume-IsFrugal (connecting lifecycle) (fails reason) s = failed_start-IsFrugal h reason s
  resume-IsFrugal _ answer s = record { recent = tt; thrifty = inl (refl, omega arith) }
