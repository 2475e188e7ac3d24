-- ===== src/Audio/VadGate/Hangover.antt =====
-- How long the gate of client/src/features/audio/VadGate.ts stays open once the voice is gone.
use onlytwo.Base.{
  ◌-◌, ◌≤◌, ◌≡◌, refl, ap, Bool, true, false, List, [], ◌∷◌, length, All, arith, lt→ltb, sym,
}
use onlytwo.Audio.VadGate.{VadGate, VadDecision, passed, talk, process}

module _ {F L : Type 0} (rms_db : F → L) (at_least : L → L → Bool) where
  -- The decisions on a list of frames, and the gate after them.
  unfoldable pub process_all : VadGate F L → List F → List (VadDecision F L) × VadGate F L
  process_all g [] = ([], g)
  process_all g (f ∷ fs) =
      let (d, after) = process rms_db at_least g f in
      let (ds, last) = process_all after fs in (d ∷ ds, last)

  -- A frame below the level that keeps the gate open.
  abbrev pub IsQuiet : VadGate F L → F → Type 0
  IsQuiet g f = at_least (rms_db f) g.config.stop_db ≡ false

  abbrev pub passed_all : List F → List (VadDecision F L)
  passed_all [] = []
  passed_all (f ∷ fs) = passed rms_db at_least f ∷ passed_all fs

  quiet_passed :
      (g : VadGate F L) (f : F)
      → g.config.enabled ≡ true
      → g.speaking ≡ true
      → IsQuiet g f
      → 1 ≤ g.hangover_remaining
      → process rms_db at_least g f
        ≡ (passed rms_db at_least f, record g { hangover_remaining = g.hangover_remaining - 1 })
  unfolding process talk
  quiet_passed g f e s q h = let more = lt→ltb 0 g.hangover_remaining h in rw (e, s, q, more) refl

  quiet_stopped :
      (g : VadGate F L) (f : F)
      → g.config.enabled ≡ true
      → g.speaking ≡ true
      → IsQuiet g f
      → g.hangover_remaining ≡ 0
      → ((process rms_db at_least g f).0.stopped ≡ true)
        × ((process rms_db at_least g f).1.speaking ≡ false)
  unfolding process talk
  quiet_stopped g f e s q h = rw (e, s, q, h) (refl, refl)

  -- The quiet frames that follow while the hangover lasts are sent, each alone, and the first one after
  -- it closes the gate.
  pub hangover_sent :
      (g : VadGate F L) (fs : List F) (last : F)
      → g.config.enabled ≡ true
      → g.speaking ≡ true
      → All (IsQuiet g) fs
      → IsQuiet g last
      → length fs ≡ g.hangover_remaining
      → let (decisions, after) = process_all g fs in
        (decisions ≡ passed_all fs)
        × ((process rms_db at_least after last).0.stopped ≡ true)
        × ((process rms_db at_least after last).1.speaking ≡ false)
  unfolding process_all
  hangover_sent g [] last e s qs q n =
      let stops = quiet_stopped g last e s q (sym n) in (refl, stops.0, stops.1)
  hangover_sent g (f ∷ fs) last e s qs q n =
      let first = quiet_passed g f e s qs.0 (omega (arith, n)) in
      let after = record g { hangover_remaining = g.hangover_remaining - 1 } in
      let rest = hangover_sent after fs last e s qs.1 q (omega (arith, n)) in
      rw first (ap (◌∷◌ (passed rms_db at_least f)) rest.0, rest.1, rest.2)
