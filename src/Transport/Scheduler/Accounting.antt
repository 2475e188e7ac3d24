-- ===== src/Transport/Scheduler/Accounting.antt =====
-- The counters of the packet scheduler agree with the packets that it holds.
use onlytwo.Base.{
  ℕ, ◌+◌, ◌≡◌, refl, Option, none, some, List, [], ◌∷◌, ◌++◌, length, length-append, arith,
}
use onlytwo.Config.Lanes.{Lane, control, voice, text, file, LaneBudget, at, at-put_self}
use onlytwo.Config.Profile.{TransportProfile}
use onlytwo.Transport.Scheduler.{
  Call, configures, enqueues, takes, clears, clears_volatile, step, run, Scheduler, QueuedPacket,
  size, new, drop_head, make_room, push_packet, enqueue, pick_lane, take_packet, take_from, next,
  clear_lane, clear_volatile, clear, clear_lanes, lanes, set_profile,
}

-- The bytes of a queue's packets.
abbrev pub sum_sizes : List QueuedPacket → ℕ
sum_sizes [] = 0
sum_sizes (p ∷ ps) = size p + sum_sizes ps

pub sum_sizes-append :
    (ps qs : List QueuedPacket) → sum_sizes (ps ++ qs) ≡ sum_sizes ps + sum_sizes qs
sum_sizes-append [] qs = omega arith
sum_sizes-append (p ∷ ps) qs = omega (arith, sum_sizes-append ps qs)

-- Each queue's byte counter is the sum of its packets' lengths, and the totals are the sums over
-- the four lanes.
pub record IsAccounted (s : Scheduler) : Type 0 where
  pub control_bytes : s.queues.control.bytes ≡ sum_sizes s.queues.control.packets
  pub text_bytes : s.queues.text.bytes ≡ sum_sizes s.queues.text.packets
  pub file_bytes : s.queues.file.bytes ≡ sum_sizes s.queues.file.packets
  pub voice_bytes : s.queues.voice.bytes ≡ sum_sizes s.queues.voice.packets
  pub packets_total :
      s.total_packets
      ≡ length s.queues.control.packets
        + length s.queues.text.packets
        + length s.queues.file.packets
        + length s.queues.voice.packets
  pub bytes_total :
      s.total_bytes
      ≡ s.queues.control.bytes + s.queues.text.bytes + s.queues.file.bytes + s.queues.voice.bytes

new-IsAccounted : (p : TransportProfile) → IsAccounted (new p)
unfolding new
new-IsAccounted p = omega arith

pub drop_head-IsAccounted :
    (s : Scheduler) (l : Lane) (p : QueuedPacket) (ps : List QueuedPacket)
    → (at s.queues l).packets ≡ p ∷ ps
    → IsAccounted s
    → IsAccounted (drop_head s l p ps)
unfolding drop_head
drop_head-IsAccounted s control p ps e v = ground arith
drop_head-IsAccounted s l p ps e v = ground arith

pub packets-drop_head :
    (s : Scheduler) (l : Lane) (p : QueuedPacket) (ps : List QueuedPacket)
    → (at (drop_head s l p ps).queues l).packets ≡ ps
unfolding drop_head
packets-drop_head s l p ps = rw at-put_self

make_room-IsAccounted :
    (s : Scheduler) (l : Lane) (cfg : LaneBudget) (n : ℕ) (ps : List QueuedPacket) (d : ℕ)
    → (at s.queues l).packets ≡ ps
    → IsAccounted s
    → IsAccounted (make_room s l cfg n ps d).2
unfolding make_room
make_room-IsAccounted s l cfg n [] d e v = ground arith
make_room-IsAccounted s l cfg n (p ∷ ps) d e v =
    let more =
      make_room-IsAccounted (drop_head s l p ps) l cfg n ps (d + 1) (packets-drop_head s l p ps)
        (drop_head-IsAccounted s l p ps e v) in
    ground (arith, more)

push_packet-IsAccounted :
    (s : Scheduler) (l : Lane) (p : QueuedPacket)
    → p.lane ≡ l
    → IsAccounted s
    → IsAccounted (push_packet s p)
unfolding push_packet
push_packet-IsAccounted s control p e v = ground (
  arith,
  length-append s.queues.control.packets (p ∷ []),
  sum_sizes-append s.queues.control.packets (p ∷ []),
)
push_packet-IsAccounted s text p e v = ground (
  arith,
  length-append s.queues.text.packets (p ∷ []),
  sum_sizes-append s.queues.text.packets (p ∷ []),
)
push_packet-IsAccounted s file p e v = ground (
  arith,
  length-append s.queues.file.packets (p ∷ []),
  sum_sizes-append s.queues.file.packets (p ∷ []),
)
push_packet-IsAccounted s voice p e v = ground (
  arith,
  length-append s.queues.voice.packets (p ∷ []),
  sum_sizes-append s.queues.voice.packets (p ∷ []),
)

pub enqueue-IsAccounted :
    (s : Scheduler) (p : QueuedPacket) → IsAccounted s → IsAccounted (enqueue s p).1
unfolding enqueue
enqueue-IsAccounted s p v = ground (
  arith,
  make_room-IsAccounted s p.lane (at s.profile.lanes p.lane) (size p) (at s.queues p.lane).packets 0
      refl v,
  push_packet-IsAccounted
      (make_room s p.lane (at s.profile.lanes p.lane) (size p) (at s.queues p.lane).packets 0).2
      p.lane p refl,
)

take_packet-IsAccounted :
    (s : Scheduler) (l : Lane) (ps : List QueuedPacket)
    → (at s.queues l).packets ≡ ps
    → IsAccounted s
    → IsAccounted (take_packet s l ps).1
unfolding take_packet
take_packet-IsAccounted s l [] e v = v
take_packet-IsAccounted s l (p ∷ ps) e v = drop_head-IsAccounted s l p ps e v

take_from-IsAccounted :
    (s : Scheduler) (o : Option Lane) → IsAccounted s → IsAccounted (take_from s o).1
unfolding take_from
take_from-IsAccounted s none v = v
take_from-IsAccounted s (some l) v = take_packet-IsAccounted s l (at s.queues l).packets refl v

pub next-IsAccounted : (s : Scheduler) → IsAccounted s → IsAccounted (next s).1
unfolding next
next-IsAccounted s v = take_from-IsAccounted s (pick_lane s) v

pub clear_lane-IsAccounted :
    (s : Scheduler) (l : Lane) → IsAccounted s → IsAccounted (clear_lane s l)
unfolding clear_lane
clear_lane-IsAccounted s control v = ground arith
clear_lane-IsAccounted s l v = ground arith

clear_lanes-IsAccounted :
    (s : Scheduler) (ls : List Lane) → IsAccounted s → IsAccounted (clear_lanes s ls)
unfolding clear_lanes
clear_lanes-IsAccounted s [] v = v
clear_lanes-IsAccounted s (l ∷ ls) v =
    clear_lanes-IsAccounted (clear_lane s l) ls (clear_lane-IsAccounted s l v)

pub clear-IsAccounted : (s : Scheduler) → IsAccounted s → IsAccounted (clear s)
unfolding clear
clear-IsAccounted s v = clear_lanes-IsAccounted s lanes v

pub step-IsAccounted : (s : Scheduler) (c : Call) → IsAccounted s → IsAccounted (step s c)
unfolding step set_profile clear_volatile
step-IsAccounted s (configures p) v = ground arith
step-IsAccounted s (enqueues p) v = enqueue-IsAccounted s p v
step-IsAccounted s takes v = next-IsAccounted s v
step-IsAccounted s clears v = clear-IsAccounted s v
step-IsAccounted s clears_volatile v = clear_lane-IsAccounted s voice v

run-IsAccounted : (s : Scheduler) (cs : List Call) → IsAccounted s → IsAccounted (run s cs)
unfolding run
run-IsAccounted s [] v = v
run-IsAccounted s (c ∷ cs) v = run-IsAccounted (step s c) cs (step-IsAccounted s c v)

-- After any calls on a new scheduler, each lane's byte counter is the sum of the sizes of the
-- packets in that lane, and the two totals are the sums over the four lanes.
pub run-new-IsAccounted : (p : TransportProfile) (cs : List Call) → IsAccounted (run (new p) cs)
run-new-IsAccounted p cs = run-IsAccounted (new p) cs (new-IsAccounted p)
