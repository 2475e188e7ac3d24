-- ===== src/Session/System/Overtaken.antt =====
-- `disconnect` of client/src/session/SessionController.ts between two turns of `handleHandshake`.
use Prim.Native.String.{String}
use onlytwo.Base.{◌≡◌, refl, Bool, some, none}
use onlytwo.Session.{Phase, encrypted_unverified, add_system, system_said}
use onlytwo.Session.Calls.{Host, Outside, Answer, phrasing}
use onlytwo.Session.Lifecycle.{disconnected}
use onlytwo.Session.Handshake.{handshake_phrased}
use onlytwo.Session.Resume.{resume}
use onlytwo.Session.System.{System, step, disconnects, inbound_goes_on}

-- When the chat is ended on this device while `handleHandshake` waits for the phrase, the handshake
-- goes on: the session then says that it is active and encrypted, and has no channel.
pub ended_then_active :
    (h : Host) (o : Outside) (sys : System) (phrase : String) (answer : Answer)
    (silent forget_slot : Bool) (notice : String)
    → sys.inbound ≡ phrasing (some phrase)
    → let ended = (step h o sys (disconnects silent forget_slot notice)).0 in
      let later = (step h o ended (inbound_goes_on answer)).0.session in
      (later.view.phase ≡ Phase.active)
      × (later.view.security ≡ encrypted_unverified)
      × (later.secure ≡ none)
unfolding step resume handshake_phrased disconnected add_system system_said
ended_then_active h o sys phrase answer silent forget_slot notice e = rw e (refl, refl, refl)
