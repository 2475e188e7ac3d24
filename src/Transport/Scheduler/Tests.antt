-- ===== src/Transport/Scheduler/Tests.antt =====
-- Runs of the packet scheduler, and its theorems at concrete inputs.
use onlytwo.Base.{
  ◌<◌, drop, true, ◌++◌, ℕ, ◌≡◌, ◌≤◌, ◌≢◌, refl, some, List, [], ◌∷◌, arith, if◌then◌else◌,
}
use onlytwo.Config.Lanes.{Lane, control, voice, text, file, lane_eq, at, fail}
use onlytwo.Config.Profile.{low_data}
use onlytwo.Config.Table.{low_data_profile}
use onlytwo.Transport.Scheduler.{
  Scheduler, QueuedPacket, size, new, enqueue, next, run, step, drop_head, make_room,
  would_overflow, push_packet, Call, enqueues, takes, priority_of, take_from, pick_lane, sort_lanes,
  waiting, insert_lane, take_packet,
}
use onlytwo.Transport.Scheduler.Accounting.{IsAccounted, run-new-IsAccounted}
use onlytwo.Transport.Scheduler.Budget.{IsWithin, run-new-IsWithin}
use onlytwo.Transport.Scheduler.Order.{contents, if_ok, fail_lane_keeps}
use onlytwo.Transport.Scheduler.Latest.{voice_accepted}
use onlytwo.Transport.Scheduler.Choice.{next_serves}
use onlytwo.Transport.Scheduler.Drain.{drain, in_order, drain_order}

abbrev packet : Lane → ℕ → QueuedPacket
packet l n = record { lane = l; bytes = n ∷ 0 ∷ [] }

abbrev history : List Call
history =
    enqueues (packet file 1)
    ∷ enqueues (packet voice 2)
    ∷ enqueues (packet control 3)
    ∷ takes
    ∷ enqueues (packet file 4)
    ∷ []

-- One file packet, then a voice packet, then another file packet are waiting.
mixed : Scheduler
unfolding run step new enqueue next take_from pick_lane sort_lanes waiting make_room would_overflow
    push_packet insert_lane take_packet drop_head
mixed = run (new low_data_profile) history

mixed_order : in_order mixed ≡ packet voice 2 ∷ packet file 1 ∷ packet file 4 ∷ []
unfolding mixed
mixed_order = refl

mixed-IsAccounted : IsAccounted mixed
unfolding mixed
mixed-IsAccounted = omega arith

mixed-IsWithin : IsWithin mixed
unfolding mixed
mixed-IsWithin = omega arith

mixed_fits : size (packet voice 5) ≤ mixed.profile.max_frame_bytes
unfolding mixed
mixed_fits = omega arith

mixed_voice : contents mixed voice ≡ [] → mixed.total_packets < mixed.profile.outbox.max_packets
unfolding mixed
mixed_voice h = omega arith

mixed-profile : mixed.profile ≡ low_data_profile
unfolding mixed
mixed-profile = refl

mixed_file_fails : (at mixed.profile.lanes file).drop_policy ≡ fail
unfolding mixed
mixed_file_fails = refl

mixed_file : contents mixed file ≢ []
unfolding mixed
mixed_file h = cc

run-new-IsAccounted_example : IsAccounted (run (new low_data_profile) history)
run-new-IsAccounted_example = run-new-IsAccounted low_data_profile history

run-new-IsWithin_example : IsWithin (run (new low_data_profile) history)
run-new-IsWithin_example =
    run-new-IsWithin low_data_profile history (refl, (refl, (refl, (refl, (refl, tt)))))

fail_lane_keeps_example :
    let (r, t) = enqueue mixed (packet file 5) in
    (r.dropped ≡ 0)
    × (contents t file ≡ contents mixed file ++ if_ok r.ok (packet file 5 ∷ []))
    × (contents t voice ≡ contents mixed voice)
fail_lane_keeps_example = fail_lane_keeps mixed (packet file 5) voice mixed_file_fails (λ h. cc)

next_serves_example :
    (l : Lane) × (p : QueuedPacket) × ((next mixed).0 ≡ some p)
    × (priority_of mixed file ≤ priority_of mixed l)
    × (contents mixed l ≡ p ∷ contents (next mixed).1 l)
    × (contents mixed text ≡ (
        if lane_eq text l then p ∷ contents (next mixed).1 text else contents (next mixed).1 text))
next_serves_example = next_serves mixed file text mixed_file

drain_order_example :
    ((drain mixed.total_packets mixed).0 ≡ in_order mixed)
    × (in_order (drain mixed.total_packets mixed).1 ≡ [])
drain_order_example = drain_order low_data mixed mixed-profile mixed-IsAccounted

voice_accepted_example :
    let (r, t) = enqueue mixed (packet voice 5) in
    (r.ok ≡ true)
    × (contents t voice ≡ drop r.dropped (contents mixed voice) ++ packet voice 5 ∷ [])
    × (contents t file ≡ contents mixed file)
voice_accepted_example =
    voice_accepted low_data mixed (packet voice 5) file mixed-profile mixed-IsAccounted
      mixed-IsWithin refl (λ h. cc) mixed_fits mixed_voice
