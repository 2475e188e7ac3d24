-- ===== src/Session/System/Limit.antt =====
-- How many handshakes client/src/session/SessionController.ts sends.
use onlytwo.Session.System.Account.{IsLimited, turn-IsLimited, IsRecent-later, recent_free}
use onlytwo.Session.System.Turns.{on_handshake-IsFrugal}
use onlytwo.Session.System.Resumed.{on_status-IsFrugal, on_relay-IsFrugal, resume-IsFrugal}
use onlytwo.Session.System.Frugal.{pending, IsRecent, sent_count, count, IsFrugal, weaken}
use onlytwo.Base.{
  ℕ, ◌≤◌, ◌&&◌, sym, subst, refl, List, [], ◌++◌, ◌==◌, if◌then◌else◌, arith, inl, subst, sym, inr,
  Bool, if_either, true,
}
use onlytwo.Session.{Session, String}
use onlytwo.Session.Calls.{Call, Task, Turn}
use onlytwo.Session.Resume.{create_room, join_room, on_connection_status, on_relay_event, resume}
use onlytwo.Session.System.{
  System, step, sends, IsReached, steps, begins, begin_inbound, is_idle, with_inbound, with_startup,
  Event, handshake_arrives, status_changes, relay_says, inbound_goes_on, startup_goes_on,
  creates_room, joins_room, disconnects,
}
use onlytwo.Session.Lifecycle.{disconnected, disconnect_calls}
use onlytwo.Session.Handshake.{on_handshake}
use onlytwo.Session.Calls.{Host, Outside}
use onlytwo.Protocol.Json.{utf16_length}

record IsLawful (sys : System) (log : List ℕ) : Type 0 where
  limited :
      IsLimited sys.session log
        (pending sys.session.secure_epoch sys.inbound)
        (pending sys.session.secure_epoch sys.startup)
  inbound_recent : IsRecent sys.session.secure_epoch sys.inbound
  startup_recent : IsRecent sys.session.secure_epoch sys.startup

swapped : {s : Session} {log : List ℕ} {a b : ℕ} → IsLimited s log a b → IsLimited s log b a
swapped i = record {
  within = i.within;
  unused = i.unused;
  account = let account = i.account in omega (arith, account);
}

kept-IsRecent :
    (n : ℕ) (s : Session) (t : Turn) (other : Task)
    → IsFrugal n s t
    → IsRecent s.secure_epoch other
    → IsRecent t.after.secure_epoch other
kept-IsRecent n s t other f r = elim f.thrifty [
  | inl (level, _) ↦ subst (λ (m : ℕ). IsRecent m other) (sym level) r
  | inr (next, _, _) ↦
      subst (λ (m : ℕ). IsRecent m other) (sym next) (IsRecent-later s.secure_epoch other r)
]

module _ (sys : System) (log : List ℕ) (lawful : IsLawful sys log) where
  abbrev IsKept : System × List Call → Type 0
  IsKept r = IsLawful r.0 (sends sys.session.secure_epoch r.1 ++ log)

  inbound-IsKept :
      (t : Turn)
      → IsFrugal (pending sys.session.secure_epoch sys.inbound) sys.session t
      → IsKept (with_inbound sys t)
  inbound-IsKept t f =
      let n = pending sys.session.secure_epoch sys.inbound in
      record {
        limited =
            turn-IsLimited sys.session log n sys.startup t lawful.limited lawful.startup_recent f;
        inbound_recent = f.recent;
        startup_recent = kept-IsRecent n sys.session t sys.startup f lawful.startup_recent;
      }

  startup-IsKept :
      (t : Turn)
      → IsFrugal (pending sys.session.secure_epoch sys.startup) sys.session t
      → IsKept (with_startup sys t)
  startup-IsKept t f =
      let n = pending sys.session.secure_epoch sys.startup in
      record {
        limited = swapped (
            turn-IsLimited sys.session log n sys.inbound t (swapped lawful.limited)
              lawful.inbound_recent f);
        inbound_recent = kept-IsRecent n sys.session t sys.inbound f lawful.inbound_recent;
        startup_recent = f.recent;
      }

  same-IsKept : IsKept (sys, [])
  unfolding sends
  same-IsKept = lawful

  begin-IsKept :
      (is_current : Bool) (t : Turn)
      → IsFrugal 0 sys.session t
      → IsKept (begin_inbound sys is_current t)
  unfolding begin_inbound
  begin-IsKept is_current t f =
      if_either IsKept (is_idle sys.inbound && is_current)
        (inbound-IsKept t (weaken (pending sys.session.secure_epoch sys.inbound) f)) same-IsKept

  opened-IsKept :
      (t : Turn)
      → IsFrugal 0 sys.session t
      → IsKept (if sys.session.startup_in_flight then (sys, []) else with_startup sys t)
  opened-IsKept t f =
      if_either IsKept sys.session.startup_in_flight same-IsKept
        (startup-IsKept t (weaken (pending sys.session.secure_epoch sys.startup) f))

  disconnect-IsKept :
      (silent forget_slot : Bool) (notice : String)
      → IsKept (
        record sys { session = disconnected silent forget_slot notice sys.session },
        disconnect_calls forget_slot,
      )
  unfolding disconnected sent_count
  disconnect-IsKept silent forget_slot notice =
      let r = lawful.inbound_recent in
      let cur = sys.session.secure_epoch in
      inbound-IsKept
        (record {
          after = disconnected silent forget_slot notice sys.session;
          calls = disconnect_calls forget_slot;
          task = sys.inbound;
        })
        (record {
          recent =
              subst (λ (m : ℕ). IsRecent m sys.inbound) (omega arith)
                (IsRecent-later cur sys.inbound r);
          thrifty = inr (omega arith, omega arith, recent_free cur sys.inbound r);
        })

  step-IsKept : (h : Host) (o : Outside) (e : Event) → IsKept (step h o sys e)
  unfolding step create_room join_room sent_count
  step-IsKept h o (handshake_arrives epoch env) =
      begin-IsKept true (on_handshake h epoch env sys.session)
        (on_handshake-IsFrugal h epoch env sys.session)
  step-IsKept h o (status_changes lifecycle status) =
      begin-IsKept (lifecycle == sys.session.lifecycle_epoch)
        (on_connection_status h o status sys.session) (on_status-IsFrugal h o status sys.session)
  step-IsKept h o (relay_says lifecycle event) =
      begin-IsKept (lifecycle == sys.session.lifecycle_epoch) (on_relay_event h o event sys.session)
        (on_relay-IsFrugal h o event sys.session)
  step-IsKept h o (inbound_goes_on answer) =
      inbound-IsKept (resume h o sys.inbound answer sys.session)
        (resume-IsFrugal h o sys.inbound answer sys.session)
  step-IsKept h o (startup_goes_on answer) =
      startup-IsKept (resume h o sys.startup answer sys.session)
        (resume-IsFrugal h o sys.startup answer sys.session)
  step-IsKept h o creates_room =
      opened-IsKept (create_room h o sys.session)
        (record { recent = tt; thrifty = inl (refl, omega arith) })
  step-IsKept h o (joins_room code) = opened-IsKept (join_room h o code sys.session) (
      if_either (IsFrugal 0 sys.session) (utf16_length code == 9)
        (record { recent = tt; thrifty = inl (refl, omega arith) })
        (record { recent = tt; thrifty = inl (refl, omega arith) }))
  step-IsKept h o (disconnects silent forget_slot notice) =
      disconnect-IsKept silent forget_slot notice

reached-IsLawful :
    (h : Host) (sys : System) (sent : List ℕ) → IsReached h sys sent → IsLawful sys sent
unfolding count
reached-IsLawful h _ _ begins = record {
  limited = record { within = λ e. omega arith; unused = λ e l. refl; account = omega arith };
  inbound_recent = tt;
  startup_recent = tt;
}
reached-IsLawful h _ _ (steps sys sent o e before) =
    step-IsKept sys sent (reached-IsLawful h sys sent before) h o e

-- In each secure epoch the session sends at most two handshakes, in every order of messages, events,
-- answers and disconnects.
pub handshakes_limited :
    (h : Host) (sys : System) (sent : List ℕ) (epoch : ℕ)
    → IsReached h sys sent
    → count epoch sent ≤ 2
handshakes_limited h sys sent epoch r = (reached-IsLawful h sys sent r).limited.within epoch
