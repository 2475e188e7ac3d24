-- ===== src/Transport/Scheduler/Order.antt =====
-- Which packets a call of the scheduler adds and takes away: each lane is first in, first out, and
-- `next` serves a waiting lane of the highest priority.
use mathlib.Core.List.{append-nil}
use onlytwo.Base.{
  ℕ, suc, ◌+◌, ◌-◌, ◌≤◌, ◌≡◌, ◌≢◌, refl, ◌∙◌, Bool, true, false, List, [], ◌∷◌, ◌++◌, drop, arith,
  ap, subst,
}
use onlytwo.Config.Lanes.{Lane, LaneBudget, at, at-put_self, at-put_ne, is_drop_oldest, fail}
use onlytwo.Transport.Scheduler.{
  Scheduler, QueuedPacket, size, drop_head, make_room, push_packet, enqueue,
}
use onlytwo.Transport.Scheduler.Accounting.{packets-drop_head}

-- The packets of a lane, oldest first.
abbrev pub contents : Scheduler → Lane → List QueuedPacket
contents s l = (at s.queues l).packets

drop-sub {ℓ} :
    {A : Type ℓ} (k d : ℕ) (x : A) (xs : List A)
    → d + 1 ≤ k
    → drop (k - d) (x ∷ xs) ≡ drop (k - (d + 1)) xs
drop-sub k d x xs h =
    ap (λ n. drop n (x ∷ xs)) (let e : k - d ≡ suc (k - (d + 1)) = omega arith in e)

drop-sub_self {ℓ} : {A : Type ℓ} (d : ℕ) (xs : List A) → drop (d - d) xs ≡ xs
drop-sub_self d xs = ap (λ n. drop n xs) (let e : d - d ≡ 0 = omega arith in e)

pub contents-drop_head_ne :
    (s : Scheduler) (l m : Lane) (p : QueuedPacket) (ps : List QueuedPacket)
    → m ≢ l
    → contents (drop_head s l p ps) m ≡ contents s m
unfolding drop_head
contents-drop_head_ne s l m p ps h = ap (λ q. q.packets) (at-put_ne s.queues l m _ h)

-- What the loop leaves of its own lane.
make_room_own :
    (s : Scheduler) (l : Lane) (cfg : LaneBudget) (n : ℕ) (ps : List QueuedPacket) (d : ℕ)
    → contents s l ≡ ps
    → let (room, k, t) = make_room s l cfg n ps d in (d ≤ k) × (contents t l ≡ drop (k - d) ps)
unfolding make_room
make_room_own s l cfg n [] d e = ground (arith, drop-sub_self d (contents s l))
make_room_own s l cfg n (p ∷ ps) d e =
    let more = make_room_own (drop_head s l p ps) l cfg n ps (d + 1) (packets-drop_head s l p ps) in
    ground (
      arith,
      more,
      drop-sub (make_room (drop_head s l p ps) l cfg n ps (d + 1)).1 d p ps,
      drop-sub_self d (p ∷ ps),
    )

make_room_other :
    (s : Scheduler) (l m : Lane) (cfg : LaneBudget) (n : ℕ) (ps : List QueuedPacket) (d : ℕ)
    → m ≢ l
    → contents (make_room s l cfg n ps d).2 m ≡ contents s m
unfolding make_room
make_room_other s l m cfg n [] d h = ground arith
make_room_other s l m cfg n (p ∷ ps) d h =
    let more = make_room_other (drop_head s l p ps) l m cfg n ps (d + 1) h in
    let one = contents-drop_head_ne s l m p ps h in ground (arith, more, one)

-- The lane's policy says whether the loop may drop at all.
make_room_fail :
    (s : Scheduler) (l : Lane) (cfg : LaneBudget) (n : ℕ) (ps : List QueuedPacket) (d : ℕ)
    → is_drop_oldest cfg.drop_policy ≡ false
    → (make_room s l cfg n ps d).1 ≡ d
unfolding make_room
make_room_fail s l cfg n [] d h = ground arith
make_room_fail s l cfg n (p ∷ ps) d h = ground arith

contents-push_own :
    (s : Scheduler) (p : QueuedPacket)
    → contents (push_packet s p) p.lane ≡ contents s p.lane ++ p ∷ []
unfolding push_packet
contents-push_own s p = ap (λ q. q.packets) (at-put_self s.queues p.lane _)

contents-push_ne :
    (s : Scheduler) (p : QueuedPacket) (m : Lane)
    → m ≢ p.lane
    → contents (push_packet s p) m ≡ contents s m
unfolding push_packet
contents-push_ne s p m h = ap (λ q. q.packets) (at-put_ne s.queues p.lane m _ h)

abbrev pub if_ok : Bool → List QueuedPacket → List QueuedPacket
if_ok true ps = ps
if_ok false ps = []

-- The loop as `enqueue` runs it.
abbrev room : Scheduler → QueuedPacket → Bool × ℕ × Scheduler
room s p = make_room s p.lane (at s.profile.lanes p.lane) (size p) (contents s p.lane) 0

room_own :
    (s : Scheduler) (p : QueuedPacket)
    → contents (room s p).2 p.lane ≡ drop (room s p).1 (contents s p.lane)
room_own s p =
    let same : (room s p).1 - 0 ≡ (room s p).1 = omega arith in
    (make_room_own s p.lane (at s.profile.lanes p.lane) (size p) (contents s p.lane) 0 refl).1
    ∙ ap (λ k. drop k (contents s p.lane)) same

-- Whatever `enqueue` answers, the packet's lane has lost exactly the `dropped` oldest packets, and
-- gained the packet at its end if and only if the answer is `ok`.
pub enqueue_own_lane :
    (s : Scheduler) (p : QueuedPacket)
    → let (r, t) = enqueue s p in
      contents t p.lane ≡ drop r.dropped (contents s p.lane) ++ if_ok r.ok (p ∷ [])
unfolding enqueue
enqueue_own_lane s p = ground (
  arith,
  room_own s p,
  contents-push_own (room s p).2 p,
  append-nil (contents s p.lane),
  append-nil (drop (room s p).1 (contents s p.lane)),
)

-- `enqueue` leaves every other lane as it was.
pub enqueue_other_lane :
    (s : Scheduler) (p : QueuedPacket) (m : Lane)
    → m ≢ p.lane
    → contents (enqueue s p).1 m ≡ contents s m
unfolding enqueue
enqueue_other_lane s p m h = ground (
  arith,
  make_room_other s p.lane m (at s.profile.lanes p.lane) (size p) (contents s p.lane) 0 h,
  contents-push_ne (room s p).2 p m h,
)

enqueue_drops_none :
    (s : Scheduler) (p : QueuedPacket)
    → (at s.profile.lanes p.lane).drop_policy ≡ fail
    → (enqueue s p).0.dropped ≡ 0
unfolding enqueue
enqueue_drops_none s p h = ground (
  arith,
  make_room_fail s p.lane (at s.profile.lanes p.lane) (size p) (contents s p.lane) 0 (rw h),
)

-- On a lane whose policy is `fail` no packet is lost: the lane keeps all its packets in order, with the
-- new one at its end if and only if the answer is `ok`, every other lane `m` is as it was, and the
-- answer counts no dropped packet.
pub fail_lane_keeps :
    (s : Scheduler) (p : QueuedPacket) (m : Lane)
    → (at s.profile.lanes p.lane).drop_policy ≡ fail
    → m ≢ p.lane
    → let (r, t) = enqueue s p in
      (r.dropped ≡ 0)
      × (contents t p.lane ≡ contents s p.lane ++ if_ok r.ok (p ∷ []))
      × (contents t m ≡ contents s m)
fail_lane_keeps s p m h other =
    let none_dropped = enqueue_drops_none s p h in
    let own = enqueue_own_lane s p in
    (
      none_dropped,
      subst
          (λ (k : ℕ).
            contents (enqueue s p).1 p.lane
            ≡ drop k (contents s p.lane) ++ if_ok (enqueue s p).0.ok (p ∷ []))
          none_dropped own,
      enqueue_other_lane s p m other,
    )
