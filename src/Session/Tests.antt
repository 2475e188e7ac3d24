-- ===== src/Session/Tests.antt =====
-- The session of client/src/session/SessionController.ts, step by step.
use onlytwo.Base.{ℕ, ◌≡◌, ◌≤◌, refl, true, false, some, none, List, [], ◌∷◌, ◌++◌}
use onlytwo.Config.Table.{balanced_profile}
use onlytwo.Config.Profile.{balanced}
use onlytwo.Base.{length, arith}
use onlytwo.Protocol.Messages.{core, session_verified, voice_stop}
use onlytwo.Session.Transfers.{retained, upsert_transfer}
use onlytwo.Session.Transfers.Retained.{upsert_transfer_bounded}
use onlytwo.Session.Inbox.{handle_app_message, handle_unwrapped, voice_played}
use onlytwo.Session.Inbox.Trust.{IsKeptBy, IsTrustKept, peer_keeps_trust}
use onlytwo.Session.{
  Stamp, TransferView, TransferDirection, TransferState, Session, Phase, encrypted_unverified,
}
use onlytwo.Session.Calls.{Answer, Task, phrasing, room, identity, handshake_envelope}
use onlytwo.Session.Handshake.{
  on_handshake, send_initial, send_handshake, handshake_hashed, is_stale, go_on, after_end,
}
use onlytwo.Session.Lifecycle.{disconnected}
use onlytwo.Crypto.Worker.Session.{compare_bytes}
use onlytwo.Session.Handshake.Pinned.{on_handshake-IsPinned, IsPinned}
use onlytwo.Session.Resume.{resume, create_room, start, started, start_identified, start_connected}
use onlytwo.Session.System.{
  System, Event, step, sends, IsReached, begins, steps, new_system, new_session, creates_room,
  startup_goes_on, inbound_goes_on, disconnects,
}
use onlytwo.Session.System.Frugal.{count}
use onlytwo.Session.System.Limit.{handshakes_limited}
use onlytwo.Session.System.Overtaken.{ended_then_active}
use onlytwo.Session.Meeting.Tests.{toy_host, outside, key_1, key_2}

abbrev after_events : List Event → System
after_events [] = new_system
after_events (e ∷ es) = (step toy_host outside (after_events es) e).0

abbrev sent_by : List Event → List ℕ
sent_by [] = []
sent_by (e ∷ es) =
    let before = after_events es in
    sends before.session.secure_epoch (step toy_host outside before e).1 ++ sent_by es

IsReached-by : (es : List Event) → IsReached toy_host (after_events es) (sent_by es)
IsReached-by [] = begins
IsReached-by (e ∷ es) = steps (after_events es) (sent_by es) outside e (IsReached-by es)

-- A room is created, and its first handshake sent; the last event comes first.
abbrev opening : List Event
opening =
    startup_goes_on Answer.done
    ∷ startup_goes_on Answer.done
    ∷ startup_goes_on (identity key_1)
    ∷ startup_goes_on (room "ABCD-EFGH" balanced)
    ∷ creates_room
    ∷ []

opening_sends : sent_by opening ≡ 1 ∷ []
unfolding sends step resume create_room start started disconnected start_identified start_connected
    send_initial send_handshake handshake_hashed is_stale go_on after_end compare_bytes
opening_sends = refl

handshakes_limited_example : count 1 (sent_by opening) ≤ 2
handshakes_limited_example =
    handshakes_limited toy_host (after_events opening) (sent_by opening) 1 (IsReached-by opening)

abbrev at_phrase : System
at_phrase = record {
  session = record new_session { establishing = true };
  inbound = phrasing (some "river stone");
  startup = Task.nothing;
}

ended_then_active_example :
    let ended = (step toy_host outside at_phrase (disconnects false true "Chat ended.")).0 in
    let later = (step toy_host outside ended (inbound_goes_on Answer.done)).0.session in
    (later.view.phase ≡ Phase.active)
    × (later.view.security ≡ encrypted_unverified)
    × (later.secure ≡ none)
ended_then_active_example =
    ended_then_active toy_host outside at_phrase "river stone" Answer.done false true "Chat ended."
      refl

abbrev in_chat : Session
in_chat = record new_session {
  secure = some (record { sequence = 0; profile = balanced_profile });
  local_public_key = some key_1;
  peer_public_key = some key_2;
}

on_handshake-IsPinned_example :
    IsPinned in_chat
      (on_handshake toy_host 0 (handshake_envelope toy_host key_1 balanced_profile) in_chat)
on_handshake-IsPinned_example =
    on_handshake-IsPinned toy_host in_chat (record { sequence = 0; profile = balanced_profile }) 0
      (handshake_envelope toy_host key_1 balanced_profile) refl

abbrev stamped : Stamp
stamped = record { id = "sys_2"; at = 1 }

abbrev notes : TransferView
notes = record {
  file_id = "file_1";
  direction = TransferDirection.send;
  name = "notes.txt";
  size = 40000;
  moved_bytes = 40000;
  state = TransferState.completed;
  reason = none;
  blob = none;
}

upsert_transfer_bounded_example :
    (length (retained (upsert_transfer stamped notes in_chat).0) ≤ 30)
    × (length (upsert_transfer stamped notes in_chat).0.view.transcript ≤ 500)
upsert_transfer_bounded_example = upsert_transfer_bounded stamped notes in_chat (omega arith)

peer_keeps_trust_example :
    IsKeptBy in_chat (handle_app_message stamped (core (session_verified 5)) in_chat)
    × IsKeptBy in_chat (handle_unwrapped stamped (some (voice_stop "voice")) in_chat)
    × IsTrustKept in_chat (voice_played false stamped in_chat)
peer_keeps_trust_example =
    peer_keeps_trust stamped (core (session_verified 5)) (some (voice_stop "voice")) false in_chat
