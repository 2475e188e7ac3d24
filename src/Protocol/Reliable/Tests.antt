-- ===== src/Protocol/Reliable/Tests.antt =====
-- Channels at concrete inputs.
use onlytwo.Base.{ℕ, ◌≡◌, refl, true, false, none, some, List, [], ◌∷◌, arith, ◌≤◌, ◌*◌}
use onlytwo.Protocol.Reliable.{
  Channel, PendingReliable, ReliablePolicy, Call, control, text, sent, receive, run, run_events,
  step_events, step, new, send, fire, modify, arm_retry, begin_attempt, clear_pending, fresh,
  sends_body, resolves, rings, receives, reliable_msg, reliable_ack, delivered, failed, duplicate,
  sends, find, has_seen, sweep_seen, run_events, new, step_events, step, send, fire,
}
use onlytwo.Protocol.Reliable.Sends.{sends_limited}
use onlytwo.Protocol.Reliable.Counts.{sends_of, bodies_of}
use onlytwo.Protocol.Reliable.Duplicates.{delivered_once, IsBefore}
use onlytwo.Protocol.Reliable.Late.{delivered_then_failed}

abbrev policy : ReliablePolicy
policy = record { max_attempts = 5; seen_ttl_ms = 600000 }

abbrev start : Channel ℕ
start = record { objects = []; seen = []; policy = policy }

abbrev traffic : List (Call ℕ)
traffic =
    sends_body 7 none text 42 100
    ∷ resolves 7 true
    ∷ rings 7 1600
    ∷ resolves 7 true
    ∷ receives (reliable_msg 9 control 1 0 1) 1700 1701
    ∷ []

-- The message with the id 7 is sent by the call and once more by its timer.
traffic_sends : sends_of 7 (run_events (new policy) traffic) ≡ 2
unfolding run_events step_events step new send sent fire receive find modify arm_retry begin_attempt
    clear_pending fresh has_seen sweep_seen sends_of
traffic_sends = refl

sends_limited_example :
    sends_of 7 (run_events (new policy) traffic) ≤ bodies_of 7 traffic * policy.max_attempts
sends_limited_example = sends_limited policy 7 traffic (omega arith)

first_copy : (receive start (reliable_msg 9 control 1 0 1) 1000 1001).0 ≡ some 1
unfolding receive has_seen sweep_seen
first_copy = refl

delivered_once_example :
    let between =
      run
        (receive start (reliable_msg 9 control 1 0 1) 1000 1001).1
        (sends_body 7 none text 42 100 ∷ receives (reliable_ack 7) 2000 2001 ∷ []) in
    let (answer, _, events) = receive between (reliable_msg 9 control 1 0 2) 3000 3001 in
    (answer ≡ none) × (events ≡ sends (reliable_ack 9) control ∷ duplicate 9 ∷ [])
unfolding IsBefore
delivered_once_example =
    delivered_once start 9 control control 1 1 1 0 1 2 1000 1001 3000 3001
      (sends_body 7 none text 42 100 ∷ receives (reliable_ack 7) 2000 2001 ∷ []) first_copy
      (tt, (omega arith, tt)) (omega arith)

abbrev flying : PendingReliable ℕ
flying = record {
  id = 7;
  tracking_id = some "m1";
  channel = text;
  body = 42;
  attempts = 2;
  created_at = 100;
  last_sent_at = 1600;
  timer = none;
  in_map = true;
  in_flight = true;
}

abbrev busy : Channel ℕ
busy = record { objects = flying ∷ []; seen = []; policy = policy }

busy_flying : find 7 busy.objects ≡ some flying
unfolding find
busy_flying = refl

delivered_then_failed_example :
    let (_, d, first) = receive busy (reliable_ack 7) 1650 1650 in
    (first ≡ delivered 7 (some "m1") ∷ [])
    × ((sent d 7 false).1 ≡ failed 7 (some "m1") "Message could not be queued for transport" ∷ [])
delivered_then_failed_example = delivered_then_failed busy flying 1650 1650 busy_flying refl refl
