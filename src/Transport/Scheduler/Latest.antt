-- ===== src/Transport/Scheduler/Latest.antt =====
-- Whether a voice frame ever finds no place, with the profiles of client/src/config/profiles.ts.
use onlytwo.Base.{
  ℕ, ◌+◌, ◌-◌, ◌≤◌, ◌<◌, ◌≡◌, ◌≢◌, refl, true, List, [], ◌∷◌, ◌++◌, drop, arith, subst, length, sym,
  ◌∙◌, ap,
}
use onlytwo.Config.Lanes.{Lane, voice, drop_oldest}
use onlytwo.Config.Profile.{
  TransportProfile, TransportProfileId, balanced, low_data, voice_first, maximum_privacy,
}
use onlytwo.Config.Table.{get_profile}
use onlytwo.Transport.Scheduler.{
  Scheduler, QueuedPacket, size, drop_head, make_room, enqueue, would_overflow,
}
use onlytwo.Transport.Scheduler.Accounting.{IsAccounted, packets-drop_head, drop_head-IsAccounted}
use onlytwo.Transport.Scheduler.Budget.{IsWithin, drop_head-IsWithin}
use onlytwo.Transport.Scheduler.Order.{contents, if_ok, enqueue_own_lane, enqueue_other_lane}

-- Voice frames fit their lane, which drops its oldest, and the lanes' bytes fit the outbox.
record IsRoomy (p : TransportProfile) : Type 0 where
  frame_fits : p.max_frame_bytes ≤ p.lanes.voice.max_bytes
  packet_fits : 1 ≤ p.lanes.voice.max_packets
  lanes_fit :
      p.lanes.control.max_bytes + p.lanes.text.max_bytes + p.lanes.file.max_bytes
        + p.lanes.voice.max_bytes
      ≤ p.outbox.max_bytes
  drops : p.lanes.voice.drop_policy ≡ drop_oldest

get_profile-IsRoomy : (id : TransportProfileId) → IsRoomy (get_profile id)
get_profile-IsRoomy balanced = record {
  frame_fits = omega arith;
  packet_fits = omega arith;
  lanes_fit = omega arith;
  drops = refl;
}
get_profile-IsRoomy low_data = record {
  frame_fits = omega arith;
  packet_fits = omega arith;
  lanes_fit = omega arith;
  drops = refl;
}
get_profile-IsRoomy voice_first = record {
  frame_fits = omega arith;
  packet_fits = omega arith;
  lanes_fit = omega arith;
  drops = refl;
}
get_profile-IsRoomy maximum_privacy = record {
  frame_fits = omega arith;
  packet_fits = omega arith;
  lanes_fit = omega arith;
  drops = refl;
}

-- The loop finds room, if it may drop a packet or the others leave room for one.
make_room-finds :
    (s : Scheduler) (n : ℕ) (ps : List QueuedPacket) (d : ℕ)
    → contents s voice ≡ ps
    → IsRoomy s.profile
    → IsAccounted s
    → IsWithin s
    → n ≤ s.profile.lanes.voice.max_bytes
    → (ps ≡ [] → s.total_packets < s.profile.outbox.max_packets)
    → (make_room s voice s.profile.lanes.voice n ps d).0 ≡ true
unfolding make_room would_overflow drop_head
make_room-finds s n [] d e r a w h k = let l = k refl in ground arith
make_room-finds s n (p ∷ ps) d e r a w h k =
    let shorter : s.total_packets - 1 < s.profile.outbox.max_packets =
      omega (arith, a.packets_total, w.packets_fit, ap length e) in
    let more =
      make_room-finds (drop_head s voice p ps) n ps (d + 1) (packets-drop_head s voice p ps) r
        (drop_head-IsAccounted s voice p ps e a) (drop_head-IsWithin s voice p ps e w) h
        (λ _. shorter) in
    ground (arith, more, r.drops)

enqueue-ok :
    (s : Scheduler) (p : QueuedPacket)
    → IsRoomy s.profile
    → IsAccounted s
    → IsWithin s
    → p.lane ≡ voice
    → size p ≤ s.profile.max_frame_bytes
    → (contents s voice ≡ [] → s.total_packets < s.profile.outbox.max_packets)
    → (enqueue s p).0.ok ≡ true
unfolding enqueue
enqueue-ok s p r a w lane fits k =
    let found =
      make_room-finds s (size p) (contents s voice) 0 refl r a w (omega (arith, fits, r.frame_fits))
        k in
    ground (arith, found, lane)

-- With each of the four profiles, in a scheduler within its budgets whose counters agree with its
-- packets, `enqueue` accepts every voice packet of a legal frame length, if a voice packet waits or the
-- outbox is not full of packets: the packet is then the last of its lane, which has lost at most its
-- oldest packets, as many as the answer counts, and every other lane `m` is as it was.
pub voice_accepted :
    (id : TransportProfileId) (s : Scheduler) (p : QueuedPacket) (m : Lane)
    → s.profile ≡ get_profile id
    → IsAccounted s
    → IsWithin s
    → p.lane ≡ voice
    → m ≢ voice
    → size p ≤ s.profile.max_frame_bytes
    → (contents s voice ≡ [] → s.total_packets < s.profile.outbox.max_packets)
    → let (r, t) = enqueue s p in
      (r.ok ≡ true)
      × (contents t voice ≡ drop r.dropped (contents s voice) ++ p ∷ [])
      × (contents t m ≡ contents s m)
voice_accepted id s p m profile a w lane other fits k =
    let r : IsRoomy s.profile = subst IsRoomy (sym profile) (get_profile-IsRoomy id) in
    let taken = enqueue-ok s p r a w lane fits k in
    (
      taken,
      subst
          (λ l. contents (enqueue s p).1 l ≡ drop (enqueue s p).0.dropped (contents s l) ++ p ∷ [])
          lane
          (enqueue_own_lane s p
            ∙ ap (λ b. drop (enqueue s p).0.dropped (contents s p.lane) ++ if_ok b (p ∷ [])) taken),
      enqueue_other_lane s p m (λ e. other (e ∙ lane)),
    )
