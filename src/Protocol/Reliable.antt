-- ===== src/Protocol/Reliable.antt =====
-- client/src/protocol/reliable.ts: `ReliableChannel`. Timers and the promise of `callbacks.send` are
-- steps of their own (`fire`, `sent`), so that other calls can come between. A pending message is an
-- object that its timer and its promise keep after it has left the map: `objects` holds them all and
-- `in_map` says which are in `this.pending`. The ids of `randomUUID` are numbers. The delay of a
-- timer is left to the caller of `fire`. `receive` is one step, although it awaits the sending of the
-- ack: the client handles one inbound message after the other.

pub mod Duplicates
pub mod Attempts
pub mod Late
pub mod Counts
pub mod Sends
pub mod Tests
use Prim.Native.String.{String}
use onlytwo.Base.{
  ℕ, ◌+◌, Bool, true, false, Option, none, some, List, [], ◌∷◌, ◌++◌, leb, ◌==◌, if◌then◌else◌,
}

pub data ReliableChannelName : Type 0 where
  control text : ReliableChannelName

-- What the timer does when it fires.
pub data Alarm : Type 0 where
  retries expires : Alarm

pub record ReliablePolicy : Type 0 where
  pub max_attempts : ℕ
  pub seen_ttl_ms : ℕ

pub record PendingReliable (A : Type 0) : Type 0 where
  pub id : ℕ
  pub tracking_id : Option String
  pub channel : ReliableChannelName
  pub body : A
  pub attempts : ℕ
  pub created_at : ℕ
  pub last_sent_at : ℕ
  pub timer : Option Alarm
  pub in_map : Bool
  pub in_flight : Bool

pub data Message (A : Type 0) : Type 0 where
  reliable_msg : ℕ → ReliableChannelName → A → ℕ → ℕ → Message A
  reliable_ack : ℕ → Message A
  reliable_nack : ℕ → String → Message A

-- The calls of the callbacks.
pub data Event (A : Type 0) : Type 0 where
  sends : Message A → ReliableChannelName → Event A
  delivered : ℕ → Option String → Event A
  failed : ℕ → Option String → String → Event A
  duplicate : ℕ → Event A

pub record Channel (A : Type 0) : Type 0 where
  pub objects : List (PendingReliable A)
  pub seen : List (ℕ × ℕ)
  pub policy : ReliablePolicy

-- `sweepSeen`
pub sweep_seen : ℕ → List (ℕ × ℕ) → List (ℕ × ℕ)
sweep_seen now [] = []
sweep_seen now ((id, expires_at) ∷ rest) =
    let kept = sweep_seen now rest in if leb expires_at now then kept else (id, expires_at) ∷ kept

pub has_seen : ℕ → List (ℕ × ℕ) → Bool
has_seen id [] = false
has_seen id ((i, t) ∷ rest) = if id == i then true else has_seen id rest

module _ {A : Type 0} where
  pub new : ReliablePolicy → Channel A
  new policy = record { objects = []; seen = []; policy = policy }

  -- The object with this id.
  pub find : ℕ → List (PendingReliable A) → Option (PendingReliable A)
  find id [] = none
  find id (p ∷ ps) = if id == p.id then some p else find id ps

  pub modify :
      ℕ
      → (PendingReliable A → PendingReliable A)
      → List (PendingReliable A)
      → List (PendingReliable A)
  modify id f [] = []
  modify id f (p ∷ ps) = if id == p.id then f p ∷ ps else p ∷ modify id f ps

  pub clear_pending : PendingReliable A → PendingReliable A
  clear_pending p = record p { timer = none; in_map = false }

  -- `sendPending` up to its `await`.
  pub begin_attempt : ℕ → PendingReliable A → PendingReliable A
  begin_attempt now p = record p {
    attempts = p.attempts + 1;
    last_sent_at = now;
    timer = none;
    in_flight = true;
  }

  abbrev pub envelope : PendingReliable A → Message A
  envelope p = reliable_msg p.id p.channel p.body p.created_at p.attempts

  abbrev change : Channel A → ℕ → (PendingReliable A → PendingReliable A) → Channel A
  change c id f = record c { objects = modify id f c.objects }

  pub fresh : ℕ → Option String → ReliableChannelName → A → ℕ → PendingReliable A
  fresh id tracking_id channel body now = record {
    id = id;
    tracking_id = tracking_id;
    channel = channel;
    body = body;
    attempts = 0;
    created_at = now;
    last_sent_at = 0;
    timer = none;
    in_map = true;
    in_flight = false;
  }

  pub send :
      Channel A → ℕ → Option String → ReliableChannelName → A → ℕ → Channel A × List (Event A)
  send c id tracking_id channel body now =
      let p = begin_attempt now (fresh id tracking_id channel body now) in
      (record c { objects = c.objects ++ p ∷ [] }, sends (envelope p) channel ∷ [])

  pub fail_pending : Channel A → PendingReliable A → String → Channel A × List (Event A)
  fail_pending c p reason = (change c p.id clear_pending, failed p.id p.tracking_id reason ∷ [])

  -- `armRetry`
  pub arm_retry : ReliablePolicy → PendingReliable A → PendingReliable A
  arm_retry policy p = record p {
    timer = some (if leb policy.max_attempts p.attempts then expires else retries);
  }

  abbrev landed : PendingReliable A → PendingReliable A
  landed p = record p { in_flight = false }

  -- `sendPending` from its `await` on: the promise of object `p` has been resolved with `ok`.
  resolve : Channel A → PendingReliable A → Bool → Channel A × List (Event A)
  resolve c p true = (change c p.id (λ q. arm_retry c.policy (landed q)), [])
  resolve c p false =
      fail_pending (change c p.id landed) p "Message could not be queued for transport"

  resolved : Channel A → Bool → Option (PendingReliable A) → Channel A × List (Event A)
  unfolding resolve
  resolved c ok none = (c, [])
  resolved c ok (some p) = if p.in_flight then resolve c p ok else (c, [])

  pub sent : Channel A → ℕ → Bool → Channel A × List (Event A)
  unfolding resolved
  sent c id ok = resolved c ok (find id c.objects)

  -- The callback of `setTimeout`, at time `now`.
  ring : Channel A → PendingReliable A → ℕ → Alarm → Channel A × List (Event A)
  ring c p now retries =
      (change c p.id (begin_attempt now), sends (envelope (begin_attempt now p)) p.channel ∷ [])
  ring c p now expires = fail_pending c p "Message delivery timed out"

  abbrev quiet : PendingReliable A → PendingReliable A
  quiet p = record p { timer = none }

  rung : Channel A → PendingReliable A → ℕ → Option Alarm → Channel A × List (Event A)
  unfolding ring
  rung c p now none = (c, [])
  rung c p now (some alarm) = if p.in_map then ring c p now alarm else (change c p.id quiet, [])

  fired : Channel A → ℕ → Option (PendingReliable A) → Channel A × List (Event A)
  unfolding rung
  fired c now none = (c, [])
  fired c now (some p) = rung c p now p.timer

  pub fire : Channel A → ℕ → ℕ → Channel A × List (Event A)
  unfolding fired
  fire c id now = fired c now (find id c.objects)

  -- What an ack or a nack does to the pending message, with the event that it causes.
  conclude :
      Channel A
      → (PendingReliable A → Event A)
      → Option (PendingReliable A)
      → Option A × Channel A × List (Event A)
  conclude c event none = (none, c, [])
  conclude c event (some p) =
      if p.in_map then (none, change c p.id clear_pending, event p ∷ []) else (none, c, [])

  -- The message that `receive` returns; `later` is the time after the ack has been sent.
  pub receive : Channel A → Message A → ℕ → ℕ → Option A × Channel A × List (Event A)
  unfolding conclude
  receive c m now later = elim m [
    | reliable_ack id ↦
        conclude (record c { seen = sweep_seen now c.seen }) (λ p. delivered id p.tracking_id)
          (find id c.objects)
    | reliable_nack id reason ↦
        conclude (record c { seen = sweep_seen now c.seen }) (λ p. failed id p.tracking_id reason)
          (find id c.objects)
    | reliable_msg id channel body created_at attempt ↦
        let seen = sweep_seen now c.seen in
        if has_seen id seen
        then (none, record c { seen = seen }, sends (reliable_ack id) control ∷ duplicate id ∷ [])
        else (
          some body,
          record c { seen = seen ++ (id, later + c.policy.seen_ttl_ms) ∷ [] },
          sends (reliable_ack id) control ∷ [],
        )
  ]

  -- The events of `failAll`, and the objects after it.
  fail_each : String → List (PendingReliable A) → List (PendingReliable A) × List (Event A)
  fail_each reason [] = ([], [])
  fail_each reason (p ∷ ps) =
      let (qs, es) = fail_each reason ps in
      if p.in_map
      then (clear_pending p ∷ qs, failed p.id p.tracking_id reason ∷ es)
      else (p ∷ qs, es)

  pub fail_all : Channel A → String → Channel A × List (Event A)
  unfolding fail_each
  fail_all c reason =
      let (objects, events) = fail_each reason c.objects in (record c { objects = objects }, events)

  clear_each : List (PendingReliable A) → List (PendingReliable A)
  clear_each [] = []
  clear_each (p ∷ ps) = (if p.in_map then clear_pending p else p) ∷ clear_each ps

  pub reset : Channel A → Channel A
  unfolding clear_each
  reset c = record c { objects = clear_each c.objects; seen = [] }

  pub pending_count : List (PendingReliable A) → ℕ
  pending_count [] = 0
  pending_count (p ∷ ps) = if p.in_map then 1 + pending_count ps else pending_count ps

-- The calls on a channel and the steps of its timers and promises.
pub data Call (A : Type 0) : Type 0 where
  sends_body : ℕ → Option String → ReliableChannelName → A → ℕ → Call A
  resolves : ℕ → Bool → Call A
  rings : ℕ → ℕ → Call A
  receives : Message A → ℕ → ℕ → Call A
  fails_all : String → Call A
  resets : Call A

module _ {A : Type 0} where
  pub step : Channel A → Call A → Channel A
  step c (sends_body id tracking_id channel body now) = (send c id tracking_id channel body now).0
  step c (resolves id ok) = (sent c id ok).0
  step c (rings id now) = (fire c id now).0
  step c (receives m now later) = (receive c m now later).1
  step c (fails_all reason) = (fail_all c reason).0
  step c resets = reset c

  pub run : Channel A → List (Call A) → Channel A
  run c [] = c
  run c (x ∷ xs) = run (step c x) xs

  -- The calls of the callbacks during a step, and during a run.
  pub step_events : Channel A → Call A → List (Event A)
  step_events c (sends_body id tracking_id channel body now) =
      (send c id tracking_id channel body now).1
  step_events c (resolves id ok) = (sent c id ok).1
  step_events c (rings id now) = (fire c id now).1
  step_events c (receives m now later) = (receive c m now later).2
  step_events c (fails_all reason) = (fail_all c reason).1
  step_events c resets = []

  pub run_events : Channel A → List (Call A) → List (Event A)
  run_events c [] = []
  run_events c (x ∷ xs) = step_events c x ++ run_events (step c x) xs
