-- ===== src/Transport/Scheduler/Budget.antt =====
-- No lane, and not the outbox as a whole, ever holds more than its budget.
use onlytwo.Base.{
  ℕ, ◌+◌, ◌≤◌, ◌≡◌, refl, Bool, true, false, Option, none, some, List, [], ◌∷◌, length,
  length-append, arith, All,
}
use onlytwo.Config.Lanes.{Lane, control, voice, text, file, LaneBudget, at}
use onlytwo.Config.Profile.{TransportProfile}
use onlytwo.Transport.Scheduler.Accounting.{packets-drop_head}
use onlytwo.Transport.Scheduler.{
  Call, configures, enqueues, takes, clears, clears_volatile, step, run, Scheduler, QueuedPacket,
  LaneQueue, size, new, would_overflow, drop_head, make_room, push_packet, enqueue, pick_lane,
  take_packet, take_from, next, clear_lane, clear_volatile, clear, clear_lanes, lanes,
}

-- One queue within one lane's budget.
abbrev pub Fits : LaneBudget → LaneQueue → Type 0
Fits cfg q = (length q.packets ≤ cfg.max_packets) × (q.bytes ≤ cfg.max_bytes)

pub record IsWithin (s : Scheduler) : Type 0 where
  pub control_fits : Fits s.profile.lanes.control s.queues.control
  pub text_fits : Fits s.profile.lanes.text s.queues.text
  pub file_fits : Fits s.profile.lanes.file s.queues.file
  pub voice_fits : Fits s.profile.lanes.voice s.queues.voice
  pub packets_fit : s.total_packets ≤ s.profile.outbox.max_packets
  pub bytes_fit : s.total_bytes ≤ s.profile.outbox.max_bytes

new-IsWithin : (p : TransportProfile) → IsWithin (new p)
unfolding new
new-IsWithin p = omega arith

pub drop_head-IsWithin :
    (s : Scheduler) (l : Lane) (p : QueuedPacket) (ps : List QueuedPacket)
    → (at s.queues l).packets ≡ p ∷ ps
    → IsWithin s
    → IsWithin (drop_head s l p ps)
unfolding drop_head
drop_head-IsWithin s control p ps e v = ground arith
drop_head-IsWithin s l p ps e v = ground arith

profile-make_room :
    (s : Scheduler) (l : Lane) (cfg : LaneBudget) (n : ℕ) (ps : List QueuedPacket) (d : ℕ)
    → (make_room s l cfg n ps d).2.profile ≡ s.profile
unfolding make_room drop_head
profile-make_room s l cfg n [] d = ground arith
profile-make_room s l cfg n (p ∷ ps) d =
    ground (arith, profile-make_room (drop_head s l p ps) l cfg n ps (d + 1))

make_room-IsWithin :
    (s : Scheduler) (l : Lane) (cfg : LaneBudget) (n : ℕ) (ps : List QueuedPacket) (d : ℕ)
    → (at s.queues l).packets ≡ ps
    → IsWithin s
    → IsWithin (make_room s l cfg n ps d).2
unfolding make_room
make_room-IsWithin s l cfg n [] d e v = ground arith
make_room-IsWithin s l cfg n (p ∷ ps) d e v =
    let more =
      make_room-IsWithin (drop_head s l p ps) l cfg n ps (d + 1) (packets-drop_head s l p ps)
        (drop_head-IsWithin s l p ps e v) in
    ground (arith, more)

-- Where the loop finds room, nothing overflows any more.
make_room-room :
    (s : Scheduler) (l : Lane) (cfg : LaneBudget) (n : ℕ) (ps : List QueuedPacket) (d : ℕ)
    → (make_room s l cfg n ps d).0 ≡ true
    → let t = (make_room s l cfg n ps d).2 in would_overflow t (at t.queues l) cfg n ≡ false
unfolding make_room
make_room-room s l cfg n [] d h = ground arith
make_room-room s l cfg n (p ∷ ps) d h =
    ground (arith, make_room-room (drop_head s l p ps) l cfg n ps (d + 1))

push_packet-IsWithin :
    (s : Scheduler) (l : Lane) (p : QueuedPacket)
    → p.lane ≡ l
    → would_overflow s (at s.queues l) (at s.profile.lanes l) (size p) ≡ false
    → IsWithin s
    → IsWithin (push_packet s p)
unfolding push_packet would_overflow
push_packet-IsWithin s control p e h v =
    ground (arith, length-append s.queues.control.packets (p ∷ []))
push_packet-IsWithin s text p e h v = ground (arith, length-append s.queues.text.packets (p ∷ []))
push_packet-IsWithin s file p e h v = ground (arith, length-append s.queues.file.packets (p ∷ []))
push_packet-IsWithin s voice p e h v = ground (arith, length-append s.queues.voice.packets (p ∷ []))

-- The lane and the outbox stay within their budgets whatever is enqueued.
pub enqueue-IsWithin : (s : Scheduler) (p : QueuedPacket) → IsWithin s → IsWithin (enqueue s p).1
unfolding enqueue
enqueue-IsWithin s p v =
    let cfg = at s.profile.lanes p.lane in
    let ps = (at s.queues p.lane).packets in
    let t = (make_room s p.lane cfg (size p) ps 0).2 in
    let same = profile-make_room s p.lane cfg (size p) ps 0 in
    let kept = make_room-IsWithin s p.lane cfg (size p) ps 0 refl v in
    ground (
      arith,
      same,
      kept,
      make_room-room s p.lane cfg (size p) ps 0,
      push_packet-IsWithin t p.lane p refl,
    )

take_packet-IsWithin :
    (s : Scheduler) (l : Lane) (ps : List QueuedPacket)
    → (at s.queues l).packets ≡ ps
    → IsWithin s
    → IsWithin (take_packet s l ps).1
unfolding take_packet
take_packet-IsWithin s l [] e v = v
take_packet-IsWithin s l (p ∷ ps) e v = drop_head-IsWithin s l p ps e v

take_from-IsWithin : (s : Scheduler) (o : Option Lane) → IsWithin s → IsWithin (take_from s o).1
unfolding take_from
take_from-IsWithin s none v = v
take_from-IsWithin s (some l) v = take_packet-IsWithin s l (at s.queues l).packets refl v

pub next-IsWithin : (s : Scheduler) → IsWithin s → IsWithin (next s).1
unfolding next
next-IsWithin s v = take_from-IsWithin s (pick_lane s) v

pub clear_lane-IsWithin : (s : Scheduler) (l : Lane) → IsWithin s → IsWithin (clear_lane s l)
unfolding clear_lane
clear_lane-IsWithin s control v = ground arith
clear_lane-IsWithin s l v = ground arith

clear_lanes-IsWithin : (s : Scheduler) (ls : List Lane) → IsWithin s → IsWithin (clear_lanes s ls)
unfolding clear_lanes
clear_lanes-IsWithin s [] v = v
clear_lanes-IsWithin s (l ∷ ls) v =
    clear_lanes-IsWithin (clear_lane s l) ls (clear_lane-IsWithin s l v)

clear-IsWithin : (s : Scheduler) → IsWithin s → IsWithin (clear s)
unfolding clear
clear-IsWithin s v = clear_lanes-IsWithin s lanes v

-- The calls that keep the profile.
abbrev pub is_traffic : Call → Bool
is_traffic (configures p) = false
is_traffic _ = true

step-IsWithin : (s : Scheduler) (c : Call) → is_traffic c ≡ true → IsWithin s → IsWithin (step s c)
unfolding step clear_volatile
step-IsWithin s (configures p) h v = cc
step-IsWithin s (enqueues p) h v = enqueue-IsWithin s p v
step-IsWithin s takes h v = next-IsWithin s v
step-IsWithin s clears h v = clear-IsWithin s v
step-IsWithin s clears_volatile h v = clear_lane-IsWithin s voice v

run-IsWithin :
    (s : Scheduler) (cs : List Call)
    → All (λ c. is_traffic c ≡ true) cs
    → IsWithin s
    → IsWithin (run s cs)
unfolding run
run-IsWithin s [] h v = v
run-IsWithin s (c ∷ cs) h v = run-IsWithin (step s c) cs h.1 (step-IsWithin s c h.0 v)

-- After any calls on a new scheduler that do not change its profile, every lane is within its
-- packet and byte budget, and the totals are within those of the outbox.
pub run-new-IsWithin :
    (p : TransportProfile) (cs : List Call)
    → All (λ c. is_traffic c ≡ true) cs
    → IsWithin (run (new p) cs)
run-new-IsWithin p cs h = run-IsWithin (new p) cs h (new-IsWithin p)
