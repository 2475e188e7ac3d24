-- ===== src/Transport/Reconnect/Limit.antt =====
-- The reconnects of client/src/transport/WebSocketConnection.ts are limited.
use onlytwo.Base.{
  ℕ, zero, suc, ◌+◌, ◌≤◌, ◌≡◌, refl, true, false, not, ◌&&◌, List, [], ◌∷◌, leb, ◌==◌, if_either,
  if_known, arith, le→leb, ==_refl,
}
use onlytwo.Config.Profile.{TransportProfile}
use onlytwo.Transport.Reconnect.{
  Connection, failed, new_connection, open_socket, connect, disconnect, schedule_reconnect,
  reject_once, fire_reconnect, on_open, on_error, on_close, on_session_ended, Event, connects,
  disconnects, fires, opens, errs, ends, closes, step, run,
}

module _ (profile : TransportProfile) where
  abbrev IsLimited : Connection → Type 0
  IsLimited c = c.reconnect_attempts ≤ profile.reconnect.max_attempts

  schedule-IsLimited : (c : Connection) → IsLimited c → IsLimited (schedule_reconnect profile c)
  unfolding schedule_reconnect
  schedule-IsLimited c l = if_either IsLimited c.intentional_close l (
      if_known IsLimited (leb profile.reconnect.max_attempts c.reconnect_attempts) (λ _. l)
        (λ h. ground (arith, h)))

  reject-IsLimited : (c : Connection) → IsLimited c → IsLimited (reject_once profile c)
  unfolding reject_once
  reject-IsLimited c l = if_either IsLimited c.is_settled l (
      if_either IsLimited c.is_reconnecting (schedule-IsLimited (record c { is_settled = true }) l)
        l)

  step-IsLimited : (c : Connection) (e : Event profile) → IsLimited c → IsLimited (step profile c e)
  unfolding step connect disconnect fire_reconnect open_socket on_open on_error on_close
      on_session_ended
  step-IsLimited c connects l = omega arith
  step-IsLimited c disconnects l = l
  step-IsLimited c fires l = if_either IsLimited c.intentional_close l l
  step-IsLimited c (opens epoch) l = if_either IsLimited (not (c.epoch == epoch)) l (omega arith)
  step-IsLimited c (errs epoch) l =
      if_either IsLimited (not c.is_opened && c.epoch == epoch) (reject-IsLimited c l) l
  step-IsLimited c (ends epoch) l = if_either IsLimited (not (c.epoch == epoch)) l l
  step-IsLimited c (closes epoch session_ended) l = if_either IsLimited (not (c.epoch == epoch)) l (
      if_either IsLimited (not c.is_opened) (reject-IsLimited c l) (
        if_either IsLimited session_ended l
          (if_either IsLimited c.intentional_close l (schedule-IsLimited c l))))

  run-IsLimited :
      (c : Connection) (es : List (Event profile)) → IsLimited c → IsLimited (run profile c es)
  unfolding run
  run-IsLimited c [] l = l
  run-IsLimited c (e ∷ es) l = run-IsLimited (step profile c e) es (step-IsLimited c e l)

  -- So many times the timer fires and the new socket fails.
  unfoldable pub failed_rounds : ℕ → Connection → Connection
  failed_rounds zero c = c
  failed_rounds (suc n) c =
      failed_rounds n (step profile (step profile c fires) (errs (c.epoch + 1)))

  round_lem :
      (c : Connection)
      → c.intentional_close ≡ false
      → step profile (step profile c fires) (errs (c.epoch + 1))
        ≡ schedule_reconnect profile (record (open_socket c true) { is_settled = true })
  unfolding step fire_reconnect open_socket on_error reject_once
  round_lem c h = let same = ==_refl (c.epoch + 1) in rw (h, same) refl

  round_counts :
      (c : Connection)
      → c.intentional_close ≡ false
      → c.reconnect_attempts + 1 ≤ profile.reconnect.max_attempts
      → let r = step profile (step profile c fires) (errs (c.epoch + 1)) in
        (r.intentional_close ≡ false) × (r.reconnect_attempts ≡ c.reconnect_attempts + 1)
  unfolding schedule_reconnect open_socket
  round_counts c h l =
      let left : leb profile.reconnect.max_attempts c.reconnect_attempts ≡ false =
        ground (arith, l) in
      rw (round_lem c h, h, left) (refl, refl)

-- However sockets open, fail and close, whenever the timers fire, and however often the user
-- connects and disconnects, a connection never counts more reconnects than its profile allows.
pub attempts_limited :
    (profile : TransportProfile) (es : List (Event profile))
    → (run profile new_connection es).reconnect_attempts ≤ profile.reconnect.max_attempts
unfolding new_connection
attempts_limited profile es = run-IsLimited profile new_connection es (omega arith)

-- A connection that the user has not closed, and that fails to reopen again and again, has failed after
-- one round more than it has attempts left.
pub gives_up :
    (profile : TransportProfile) (n : ℕ) (c : Connection)
    → c.intentional_close ≡ false
    → c.reconnect_attempts + n ≡ profile.reconnect.max_attempts
    → (failed_rounds profile (suc n) c).status ≡ failed
unfolding failed_rounds schedule_reconnect open_socket
gives_up profile zero c h e =
    let full = le→leb profile.reconnect.max_attempts c.reconnect_attempts (omega (arith, e)) in
    rw (round_lem profile c h, h, full) refl
gives_up profile (suc n) c h e =
    let (same, more) = round_counts profile c h (omega (arith, e)) in
    gives_up profile n (step profile (step profile c fires) (errs (c.epoch + 1))) same
      (omega (arith, e, more))
