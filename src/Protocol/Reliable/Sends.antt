-- ===== src/Protocol/Reliable/Sends.antt =====
-- How often a message is given to the transport, counted in the calls of `callbacks.send`.
use onlytwo.Base.{
  if_either, ℕ, ◌+◌, ◌*◌, ◌≤◌, ◌≡◌, refl, ◌∙◌, subst, true, false, Bool, none, some, Option, List,
  [], ◌∷◌, ◌==◌, arith, if◌then◌else◌,
}
use onlytwo.Protocol.Reliable.{
  Event, Channel, PendingReliable, Call, find, modify, clear_pending, begin_attempt, arm_retry,
  landed, retries, expires, step, ReliablePolicy, conclude, fail_pending, fire, resolve, ring, send,
  sent, Alarm, String, fresh, ReliableChannelName, clear_each, fail_all, fail_each, receive,
  Message, reset, reliable_ack, sends_body, resolves, sweep_seen, delivered, rings, receives,
  reliable_nack, failed, fails_all, reliable_msg, has_seen, fired, quiet, resolved, rung, resets,
  step_events, run_events, new,
}
use onlytwo.Protocol.Reliable.Attempts.{IsSparing, step-IsSparing, step-policy, find_id}
use onlytwo.Protocol.Reliable.Counts.{
  copies, sends_of, draws, bodies_of, attempts_of, objects_of, sends_of-append, attempts_of-append,
  objects_of-append, attempts_of-modify, attempts_of-same, objects_of-modify, attempts_bounded,
}

-- The objects of message `id` count as many attempts more in `d` as the events hold copies of it, and
-- there are as many objects.
abbrev Tallies : {A : Type 0} → ℕ → Channel A → Channel A × List (Event A) → Type 0
Tallies id c (d, es) =
    (attempts_of id d.objects ≡ attempts_of id c.objects + sends_of id es)
    × (objects_of id d.objects ≡ objects_of id c.objects)

module _ {A : Type 0} where
  idle-Tallies : (id : ℕ) (c : Channel A) → Tallies id c (c, [])
  unfolding sends_of
  idle-Tallies id c = (omega arith, refl)

  fail-Tallies :
      (id : ℕ) (c : Channel A) (p : PendingReliable A) (reason : String)
      → Tallies id c (fail_pending c p reason)
  unfolding fail_pending sends_of copies clear_pending
  fail-Tallies id c p reason = (
    omega (arith, attempts_of-same id p.id clear_pending c.objects (λ q. (refl, refl))),
    objects_of-modify id p.id clear_pending c.objects (λ q. refl),
  )

  resolve-Tallies :
      (id : ℕ) (c : Channel A) (p : PendingReliable A) (ok : Bool) → Tallies id c (resolve c p ok)
  unfolding resolve sends_of arm_retry
  resolve-Tallies id c p true = (
    omega (
      arith,
      attempts_of-same id p.id (λ q. arm_retry c.policy (landed q)) c.objects (λ q. (refl, refl)),
    ),
    objects_of-modify id p.id (λ q. arm_retry c.policy (landed q)) c.objects (λ q. refl),
  )
  resolve-Tallies id c p false =
      let (a, o) =
        fail-Tallies id (record c { objects = modify p.id landed c.objects }) p
          "Message could not be queued for transport" in
      (
        omega (arith, a, attempts_of-same id p.id landed c.objects (λ q. (refl, refl))),
        o ∙ objects_of-modify id p.id landed c.objects (λ q. refl),
      )

  sent-Tallies : (id : ℕ) (c : Channel A) (i : ℕ) (ok : Bool) → Tallies id c (sent c i ok)
  unfolding sent resolved
  sent-Tallies id c i ok = go (find i c.objects)
    where
      go : (o : Option (PendingReliable A)) → Tallies id c (resolved c ok o)
      go none = idle-Tallies id c
      go (some p) =
          if_either (Tallies id c) p.in_flight (resolve-Tallies id c p ok) (idle-Tallies id c)

  ring-Tallies :
      (id : ℕ) (c : Channel A) (p : PendingReliable A) (now : ℕ) (alarm : Alarm)
      → find p.id c.objects ≡ some p
      → Tallies id c (ring c p now alarm)
  unfolding ring begin_attempt sends_of copies
  ring-Tallies id c p now retries e = (
    omega
        (arith, attempts_of-modify id p.id 1 (begin_attempt now) c.objects p e (λ q. (refl, refl))),
    objects_of-modify id p.id (begin_attempt now) c.objects (λ q. refl),
  )
  ring-Tallies id c p now expires e = fail-Tallies id c p "Message delivery timed out"

  rung-Tallies :
      (id : ℕ) (c : Channel A) (p : PendingReliable A) (now : ℕ) (timer : Option Alarm)
      → find p.id c.objects ≡ some p
      → Tallies id c (rung c p now timer)
  unfolding rung sends_of
  rung-Tallies id c p now none e = idle-Tallies id c
  rung-Tallies id c p now (some alarm) e =
      if_either (Tallies id c) p.in_map (ring-Tallies id c p now alarm e) (
        omega (arith, attempts_of-same id p.id quiet c.objects (λ q. (refl, refl))),
        objects_of-modify id p.id quiet c.objects (λ q. refl),
      )

  fire-Tallies : (id : ℕ) (c : Channel A) (i now : ℕ) → Tallies id c (fire c i now)
  unfolding fire fired
  fire-Tallies id c i now = go (find i c.objects) refl
    where
      go : (o : Option (PendingReliable A)) → find i c.objects ≡ o → Tallies id c (fired c now o)
      go none e = idle-Tallies id c
      go (some p) e =
          rung-Tallies id c p now p.timer
            (subst (λ j. find j c.objects ≡ some p) (find_id i c.objects p e) e)

  conclude-Tallies :
      (id : ℕ) (c : Channel A) (event : PendingReliable A → Event A)
      (o : Option (PendingReliable A))
      → ((p : PendingReliable A) → copies id (event p) ≡ 0)
      → let (_, d, es) = conclude c event o in Tallies id c (d, es)
  unfolding conclude sends_of clear_pending
  conclude-Tallies id c event none k = idle-Tallies id c
  conclude-Tallies id c event (some p) k =
      if_either (λ (x : Option A × Channel A × List (Event A)). Tallies id c (x.1, x.2)) p.in_map
        (
          omega (arith, k p, attempts_of-same id p.id clear_pending c.objects (λ q. (refl, refl))),
          objects_of-modify id p.id clear_pending c.objects (λ q. refl),
        )
        (idle-Tallies id c)

  receive-Tallies :
      (id : ℕ) (c : Channel A) (m : Message A) (now later : ℕ)
      → let (_, d, es) = receive c m now later in Tallies id c (d, es)
  unfolding receive sends_of copies
  receive-Tallies id c (reliable_ack i) now later =
      conclude-Tallies id (record c { seen = sweep_seen now c.seen })
        (λ p. delivered i p.tracking_id) (find i c.objects) (λ p. refl)
  receive-Tallies id c (reliable_nack i reason) now later =
      conclude-Tallies id (record c { seen = sweep_seen now c.seen })
        (λ p. failed i p.tracking_id reason) (find i c.objects) (λ p. refl)
  receive-Tallies id c (reliable_msg i channel body created_at attempt) now later =
      if_either (λ (x : Option A × Channel A × List (Event A)). Tallies id c (x.1, x.2))
        (has_seen i (sweep_seen now c.seen)) (omega arith, refl) (omega arith, refl)

  fail_each-Tallies :
      (id : ℕ) (reason : String) (ps : List (PendingReliable A))
      → (attempts_of id (fail_each reason ps).0 ≡ attempts_of id ps)
        × (objects_of id (fail_each reason ps).0 ≡ objects_of id ps)
        × (sends_of id (fail_each reason ps).1 ≡ 0)
  unfolding fail_each attempts_of objects_of sends_of copies clear_pending
  fail_each-Tallies id reason [] = (refl, refl, refl)
  fail_each-Tallies id reason (p ∷ ps) = ground (arith, fail_each-Tallies id reason ps)

  clear_each-Tallies :
      (id : ℕ) (ps : List (PendingReliable A))
      → (attempts_of id (clear_each ps) ≡ attempts_of id ps)
        × (objects_of id (clear_each ps) ≡ objects_of id ps)
  unfolding clear_each attempts_of objects_of clear_pending
  clear_each-Tallies id [] = (refl, refl)
  clear_each-Tallies id (p ∷ ps) = ground (arith, clear_each-Tallies id ps)

  send-Tallies :
      (id : ℕ) (c : Channel A) (i : ℕ) (tracking_id : Option String) (channel : ReliableChannelName)
      (body : A) (now : ℕ)
      → let d = send c i tracking_id channel body now in
        (attempts_of id d.0.objects ≡ attempts_of id c.objects + sends_of id d.1)
        × (objects_of id d.0.objects ≡ objects_of id c.objects + (if id == i then 1 else 0))
  unfolding send begin_attempt fresh attempts_of objects_of sends_of copies
  send-Tallies id c i tracking_id channel body now =
      let p = begin_attempt now (fresh i tracking_id channel body now) in
      (
        ground (arith, attempts_of-append id c.objects (p ∷ [])),
        ground (arith, objects_of-append id c.objects (p ∷ [])),
      )

  -- A step adds to the attempts of message `id` the copies that it sends, and adds an object for each
  -- call of `send` that has drawn the id.
  step-Tallies :
      (id : ℕ) (c : Channel A) (x : Call A)
      → (attempts_of id (step c x).objects
          ≡ attempts_of id c.objects + sends_of id (step_events c x))
        × (objects_of id (step c x).objects ≡ objects_of id c.objects + draws id x)
  unfolding step step_events draws fail_all reset sends_of
  step-Tallies id c (sends_body i tracking_id channel body now) =
      send-Tallies id c i tracking_id channel body now
  step-Tallies id c (resolves i ok) = let (a, o) = sent-Tallies id c i ok in (a, omega (arith, o))
  step-Tallies id c (rings i now) = let (a, o) = fire-Tallies id c i now in (a, omega (arith, o))
  step-Tallies id c (receives m now later) =
      let (a, o) = receive-Tallies id c m now later in (a, omega (arith, o))
  step-Tallies id c (fails_all reason) =
      let (a, o, e) = fail_each-Tallies id reason c.objects in
      (omega (arith, a, e), omega (arith, o))
  step-Tallies id c resets =
      let (a, o) = clear_each-Tallies id c.objects in (omega (arith, a), omega (arith, o))

  run_limited :
      (c : Channel A) (id : ℕ) (xs : List (Call A))
      → 1 ≤ c.policy.max_attempts
      → IsSparing c
      → attempts_of id c.objects + sends_of id (run_events c xs)
        ≤ (objects_of id c.objects + bodies_of id xs) * c.policy.max_attempts
  unfolding run_events sends_of bodies_of
  run_limited c id [] l v = omega (arith, attempts_bounded c.policy.max_attempts id c.objects v)
  run_limited c id (x ∷ xs) l v =
      let (a, o) = step-Tallies id c x in
      let same = step-policy c x in
      let rest = run_limited (step c x) id xs (rw same l) (step-IsSparing c x l v) in
      let budget : (objects_of id (step c x).objects + bodies_of id xs)
            * (step c x).policy.max_attempts
          ≡ (objects_of id c.objects + bodies_of id (x ∷ xs)) * c.policy.max_attempts =
        rw same (rw o (omega arith)) in
      omega
        (arith, a, budget, rest, sends_of-append id (step_events c x) (run_events (step c x) xs))

  -- With a policy of at least one attempt, whatever calls, timers, resolved promises and incoming
  -- messages a new channel sees, the envelope of a message is given to `callbacks.send` at most
  -- `max_attempts` times for each call of `send` that has drawn the message's id.
  pub sends_limited :
      (policy : ReliablePolicy) (id : ℕ) (xs : List (Call A))
      → 1 ≤ policy.max_attempts
      → sends_of id (run_events (new policy) xs) ≤ bodies_of id xs * policy.max_attempts
  unfolding new attempts_of objects_of
  sends_limited policy id xs l = omega (arith, run_limited (new policy) id xs l tt)
