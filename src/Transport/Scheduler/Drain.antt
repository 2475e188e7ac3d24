-- ===== src/Transport/Scheduler/Drain.antt =====
-- The order in which repeated calls of `next` empty the scheduler.
use onlytwo.Base.{
  length-append, ◌⊎◌, ℕ, zero, suc, ◌≤◌, ◌<◌, ◌≡◌, refl, Option, none, some, List, inl, inr, [],
  ◌∷◌, ◌++◌, if◌then◌else◌, length, arith, ap,
}
use onlytwo.Config.Lanes.{control, voice, text, file, LaneBudget, PerLane}
use onlytwo.Config.Table.{get_profile}
use onlytwo.Config.Profile.{balanced, low_data, voice_first, TransportProfileId, TransportProfileId}
use onlytwo.Transport.Scheduler.{
  Scheduler, QueuedPacket, drop_head, pick_lane, take_packet, take_from, next, waits, waiting,
  insert_lane, sort_lanes,
}
use onlytwo.Transport.Scheduler.Accounting.{IsAccounted}
use onlytwo.Transport.Scheduler.Order.{contents}

-- The priorities of the lanes fall from control over voice and text to file.
pub record Descends (lanes : PerLane LaneBudget) : Type 0 where
  pub control_first : lanes.voice.priority < lanes.control.priority
  pub voice_second : lanes.text.priority < lanes.voice.priority
  pub text_third : lanes.file.priority < lanes.text.priority

-- Under such priorities the lane served is the first in that order that waits.
pick_lane-eq :
    (s : Scheduler)
    → Descends s.profile.lanes
    → pick_lane s ≡ (
        if waits s control
        then some control
        else if waits s voice
        then some voice
        else if waits s text
        then some text
        else if waits s file
        then some file
        else none)
unfolding pick_lane sort_lanes waiting insert_lane
pick_lane-eq s d = ground arith

-- The packets held, in that order of the lanes.
abbrev pub in_order : Scheduler → List QueuedPacket
in_order s = contents s control ++ (contents s voice ++ (contents s text ++ contents s file))

-- One call of `next` takes the first of them.
next-in_order :
    (s : Scheduler)
    → Descends s.profile.lanes
    → ((in_order s ≡ []) × (next s ≡ (none, s)))
      ⊎ ((p : QueuedPacket) × ((next s).0 ≡ some p)
          × (in_order s ≡ p ∷ in_order (next s).1)
          × ((next s).1.profile ≡ s.profile))
unfolding next take_from take_packet drop_head
next-in_order s d =
    go (contents s control) (contents s voice) (contents s text) (contents s file) refl refl refl
      refl
  where
    go :
        (cs vs ts fs : List QueuedPacket)
        → contents s control ≡ cs
        → contents s voice ≡ vs
        → contents s text ≡ ts
        → contents s file ≡ fs
        → ((in_order s ≡ []) × (next s ≡ (none, s)))
          ⊎ ((p : QueuedPacket) × ((next s).0 ≡ some p)
              × (in_order s ≡ p ∷ in_order (next s).1)
              × ((next s).1.profile ≡ s.profile))
    go (p ∷ cs) vs ts fs ec ev et ef = inr (
      p,
      ground (arith, pick_lane-eq s d),
      ground (arith, pick_lane-eq s d),
      ground (arith, pick_lane-eq s d),
    )
    go [] (p ∷ vs) ts fs ec ev et ef = inr (
      p,
      ground (arith, pick_lane-eq s d),
      ground (arith, pick_lane-eq s d),
      ground (arith, pick_lane-eq s d),
    )
    go [] [] (p ∷ ts) fs ec ev et ef = inr (
      p,
      ground (arith, pick_lane-eq s d),
      ground (arith, pick_lane-eq s d),
      ground (arith, pick_lane-eq s d),
    )
    go [] [] [] (p ∷ fs) ec ev et ef = inr (
      p,
      ground (arith, pick_lane-eq s d),
      ground (arith, pick_lane-eq s d),
      ground (arith, pick_lane-eq s d),
    )
    go [] [] [] [] ec ev et ef = inl (ground arith, ground (arith, pick_lane-eq s d))

abbrev emit :
    Option QueuedPacket → List QueuedPacket × Scheduler → Scheduler → List QueuedPacket × Scheduler
emit none more t = ([], t)
emit (some p) more t = (p ∷ more.0, more.1)

-- At most `n` calls of `next`, until one answers nothing: what came out, and what is left.
pub drain : ℕ → Scheduler → List QueuedPacket × Scheduler
drain zero s = ([], s)
drain (suc n) s = let more = drain n (next s).1 in emit (next s).0 more (next s).1

drain_lem :
    (n : ℕ) (s : Scheduler)
    → Descends s.profile.lanes
    → length (in_order s) ≤ n
    → ((drain n s).0 ≡ in_order s) × (in_order (drain n s).1 ≡ [])
unfolding drain
drain_lem zero s d h = (ground arith, ground arith)
drain_lem (suc n) s d h = elim (next-in_order s d) [
  | inl (empty, e) ↦ ground (arith, empty, e)
  | inr (p, e, more, same) ↦
      let h' : length (in_order (next s).1) ≤ n = omega (arith, ap length more) in
      let rest = drain_lem n (next s).1 (rw same d) h' in ground (arith, e, more, rest)
]

profile-Descends : (id : TransportProfileId) → Descends (get_profile id).lanes
profile-Descends balanced = omega arith
profile-Descends low_data = omega arith
profile-Descends voice_first = omega arith
profile-Descends TransportProfileId.maximum_privacy = omega arith

-- Under each of the four profiles, as many calls of `next` as the scheduler counts packets hand out
-- all control packets, then all voice, text and file packets, each lane oldest first, and leave
-- nothing behind.
pub drain_order :
    (id : TransportProfileId) (s : Scheduler)
    → s.profile ≡ get_profile id
    → IsAccounted s
    → ((drain s.total_packets s).0 ≡ in_order s) × (in_order (drain s.total_packets s).1 ≡ [])
drain_order id s e v = drain_lem s.total_packets s (rw e (profile-Descends id)) (
    omega (
      arith,
      length-append (contents s control) (contents s voice ++ (contents s text ++ contents s file)),
      length-append (contents s voice) (contents s text ++ contents s file),
      length-append (contents s text) (contents s file),
      v.packets_total,
    ))
