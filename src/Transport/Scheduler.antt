-- ===== src/Transport/Scheduler.antt =====
-- client/src/transport/PacketScheduler.ts: four bounded lanes under one outbox budget.
-- `-=` on a counter is `-`, which stops at 0; the invariant of `Scheduler/Accounting.antt` says that
-- no counter is ever smaller than what is taken off.
pub mod Accounting
pub mod Order
pub mod Choice
pub mod Budget
pub mod Drain
pub mod Latest
mod Tests
use onlytwo.Base.{
  ℕ, ◌+◌, ◌-◌, Bool, true, false, not, ◌&&◌, ◌||◌, Option, none, some, List, [], ◌∷◌, ◌++◌, ltb,
  leb, if◌then◌else◌, length,
}
use onlytwo.Config.Lanes.{
  Lane, control, voice, text, file, LaneBudget, PerLane, at, put, is_drop_oldest,
}
use onlytwo.Config.Profile.{TransportProfile}

pub record QueuedPacket : Type 0 where
  pub lane : Lane
  pub bytes : List ℕ

pub record LaneQueue : Type 0 where
  pub packets : List QueuedPacket
  pub bytes : ℕ

pub data Reason : Type 0 where
  frame_too_large queue_full : Reason

pub record EnqueueResult : Type 0 where
  pub ok : Bool
  pub dropped : ℕ
  pub reason : Option Reason

pub record Scheduler : Type 0 where
  pub profile : TransportProfile
  pub queues : PerLane LaneQueue
  pub total_packets : ℕ
  pub total_bytes : ℕ

pub record QueueSnapshot : Type 0 where
  pub packets : ℕ
  pub bytes : ℕ
  pub lane_packets : PerLane ℕ
  pub lane_bytes : PerLane ℕ

-- The `byteLength` of a packet.
abbrev pub size : QueuedPacket → ℕ
size p = length p.bytes

abbrev pub empty_queue : LaneQueue
empty_queue = record { packets = []; bytes = 0 }

pub new : TransportProfile → Scheduler
new profile = record {
  profile = profile;
  queues = record {
    control = empty_queue;
    text = empty_queue;
    file = empty_queue;
    voice = empty_queue;
  };
  total_packets = 0;
  total_bytes = 0;
}

pub set_profile : Scheduler → TransportProfile → Scheduler
set_profile s profile = record s { profile = profile }

-- `wouldOverflow(q, cfg, nextBytes)` on the lane's and the outbox's counters.
pub would_overflow : Scheduler → LaneQueue → LaneBudget → ℕ → Bool
would_overflow s q cfg next_bytes =
    leb cfg.max_packets (length q.packets)
    || ltb cfg.max_bytes (q.bytes + next_bytes)
    || leb s.profile.outbox.max_packets s.total_packets
    || ltb s.profile.outbox.max_bytes (s.total_bytes + next_bytes)

-- One round of the loop's body: `shift` and the three counters.
pub drop_head : Scheduler → Lane → QueuedPacket → List QueuedPacket → Scheduler
drop_head s lane removed rest = record s {
  queues =
      put s.queues lane
        (record { packets = rest; bytes = (at s.queues lane).bytes - size removed });
  total_packets = s.total_packets - 1;
  total_bytes = s.total_bytes - size removed;
}

-- The `while` loop of `enqueue`, on the packets that the lane still holds: true if there is room.
pub make_room : Scheduler → Lane → LaneBudget → ℕ → List QueuedPacket → ℕ → Bool × ℕ × Scheduler
make_room s lane cfg next_bytes [] dropped =
    if would_overflow s (at s.queues lane) cfg next_bytes
    then (false, dropped, s)
    else (true, dropped, s)
make_room s lane cfg next_bytes (removed ∷ rest) dropped =
    let more = make_room (drop_head s lane removed rest) lane cfg next_bytes rest (dropped + 1) in
    if would_overflow s (at s.queues lane) cfg next_bytes
    then (if is_drop_oldest cfg.drop_policy then more else (false, dropped, s))
    else (true, dropped, s)

-- The statements after the loop.
pub push_packet : Scheduler → QueuedPacket → Scheduler
push_packet s packet = record s {
  queues = put s.queues packet.lane (record {
    packets = (at s.queues packet.lane).packets ++ packet ∷ [];
    bytes = (at s.queues packet.lane).bytes + size packet;
  });
  total_packets = s.total_packets + 1;
  total_bytes = s.total_bytes + size packet;
}

abbrev finish_enqueue : QueuedPacket → Bool × ℕ × Scheduler → EnqueueResult × Scheduler
finish_enqueue packet (true, dropped, s) =
    (record { ok = true; dropped = dropped; reason = none }, push_packet s packet)
finish_enqueue packet (false, dropped, s) =
    (record { ok = false; dropped = dropped; reason = some queue_full }, s)

pub enqueue : Scheduler → QueuedPacket → EnqueueResult × Scheduler
enqueue s packet =
    if ltb s.profile.max_frame_bytes (size packet)
    then (record { ok = false; dropped = 0; reason = some frame_too_large }, s)
    else finish_enqueue packet (
        make_room s packet.lane (at s.profile.lanes packet.lane) (size packet)
          (at s.queues packet.lane).packets 0)

abbrev pub lanes : List Lane
lanes = control ∷ voice ∷ text ∷ file ∷ []

abbrev pub is_empty {ℓ} : {A : Type ℓ} → List A → Bool
is_empty [] = true
is_empty (_ ∷ _) = false

abbrev pub waits : Scheduler → Lane → Bool
waits s l = not (is_empty (at s.queues l).packets)

abbrev pub priority_of : Scheduler → Lane → ℕ
priority_of s l = (at s.profile.lanes l).priority

-- `LANES.filter(…)`
pub waiting : Scheduler → List Lane → List Lane
waiting s [] = []
waiting s (l ∷ ls) = if waits s l then l ∷ waiting s ls else waiting s ls

-- The stable `sort((a, b) => priority(b) - priority(a))`, by insertion.
pub insert_lane : Scheduler → Lane → List Lane → List Lane
insert_lane s l [] = l ∷ []
insert_lane s l (m ∷ ms) =
    if ltb (priority_of s l) (priority_of s m) then m ∷ insert_lane s l ms else l ∷ m ∷ ms

pub sort_lanes : Scheduler → List Lane → List Lane
sort_lanes s [] = []
sort_lanes s (l ∷ ls) = insert_lane s l (sort_lanes s ls)

abbrev pub first {ℓ} : {A : Type ℓ} → List A → Option A
first [] = none
first (a ∷ _) = some a

pub pick_lane : Scheduler → Option Lane
pick_lane s = first (sort_lanes s (waiting s lanes))

pub take_packet : Scheduler → Lane → List QueuedPacket → Option QueuedPacket × Scheduler
take_packet s lane [] = (none, s)
take_packet s lane (packet ∷ rest) = (some packet, drop_head s lane packet rest)

pub take_from : Scheduler → Option Lane → Option QueuedPacket × Scheduler
take_from s none = (none, s)
take_from s (some lane) = take_packet s lane (at s.queues lane).packets

pub next : Scheduler → Option QueuedPacket × Scheduler
next s = take_from s (pick_lane s)

pub clear_lane : Scheduler → Lane → Scheduler
clear_lane s lane = record s {
  queues = put s.queues lane empty_queue;
  total_packets = s.total_packets - length (at s.queues lane).packets;
  total_bytes = s.total_bytes - (at s.queues lane).bytes;
}

pub clear_volatile : Scheduler → Scheduler
clear_volatile s = clear_lane s voice

clear_lanes : Scheduler → List Lane → Scheduler
clear_lanes s [] = s
clear_lanes s (l ∷ ls) = clear_lanes (clear_lane s l) ls

pub clear : Scheduler → Scheduler
clear s = clear_lanes s lanes

pub snapshot : Scheduler → QueueSnapshot
snapshot s = record {
  packets = s.total_packets;
  bytes = s.total_bytes;
  lane_packets = record {
    control = length s.queues.control.packets;
    text = length s.queues.text.packets;
    file = length s.queues.file.packets;
    voice = length s.queues.voice.packets;
  };
  lane_bytes = record {
    control = s.queues.control.bytes;
    text = s.queues.text.bytes;
    file = s.queues.file.bytes;
    voice = s.queues.voice.bytes;
  };
}

-- A call of the scheduler's interface.
pub data Call : Type 0 where
  configures : TransportProfile → Call
  enqueues : QueuedPacket → Call
  takes clears clears_volatile : Call

pub step : Scheduler → Call → Scheduler
step s (configures p) = set_profile s p
step s (enqueues p) = (enqueue s p).1
step s takes = (next s).1
step s clears = clear s
step s clears_volatile = clear_volatile s

pub run : Scheduler → List Call → Scheduler
run s [] = s
run s (c ∷ cs) = run (step s c) cs
