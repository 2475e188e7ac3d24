-- ===== src/Transport/Scheduler/Choice.antt =====
-- Which lane `next` serves.
use onlytwo.Base.{
  not, ◌≢◌, if◌then◌else◌, sym, ◌≤◌, ◌≡◌, refl, true, false, none, some, List, [], ◌∷◌, inl, inr,
  ltb, Bool-cases, arith, All, ◌↔◌, ◌⊎◌, Option-cases, ap, ◌∙◌,
}
use onlytwo.Config.Lanes.{Lane, control, voice, text, file, lane_eq}
use onlytwo.Transport.Scheduler.{
  next, drop_head, take_from, take_packet, is_empty, Scheduler, QueuedPacket, lanes, waits, first,
  priority_of, waiting, insert_lane, sort_lanes, pick_lane,
}
use onlytwo.Transport.Scheduler.Accounting.{packets-drop_head}
use onlytwo.Transport.Scheduler.Order.{contents-drop_head_ne, contents}

-- The list's head has a priority at least that of each entry of `ls`.
abbrev Tops : Scheduler → List Lane → List Lane → Type 0
Tops s ls [] = ls ≡ []
Tops s ls (h ∷ _) = All (λ m. priority_of s m ≤ priority_of s h) ls

All-le :
    (s : Scheduler) (ls : List Lane) (h k : Lane)
    → priority_of s h ≤ priority_of s k
    → All (λ m. priority_of s m ≤ priority_of s h) ls
    → All (λ m. priority_of s m ≤ priority_of s k) ls
All-le s [] h k e a = tt
All-le s (l ∷ ls) h k e a = (omega arith, All-le s ls h k e a.1)

insert_lane-Tops :
    (s : Scheduler) (l : Lane) (ls ms : List Lane)
    → Tops s ls ms
    → Tops s (l ∷ ls) (insert_lane s l ms)
unfolding insert_lane
insert_lane-Tops s l ls [] t = rw t (omega arith, tt)
insert_lane-Tops s l ls (m ∷ ms) t = ground (arith, t, All-le s ls m l)

sort_lanes-Tops : (s : Scheduler) (ls : List Lane) → Tops s ls (sort_lanes s ls)
unfolding sort_lanes
sort_lanes-Tops s [] = refl
sort_lanes-Tops s (l ∷ ls) = insert_lane-Tops s l ls (sort_lanes s ls) (sort_lanes-Tops s ls)

module _ (P : Lane → Type 0) where
  insert_lane-All :
      (s : Scheduler) (l : Lane) (ms : List Lane) → P l → All P ms → All P (insert_lane s l ms)
  unfolding insert_lane
  insert_lane-All s l [] p a = (p, tt)
  insert_lane-All s l (m ∷ ms) p a = elim (Bool-cases (ltb (priority_of s l) (priority_of s m))) [
    | inl e ↦ rw e (a.0, insert_lane-All s l ms p a.1)
    | inr e ↦ rw e (p, a)
  ]

  sort_lanes-All : (s : Scheduler) (ls : List Lane) → All P ls → All P (sort_lanes s ls)
  unfolding sort_lanes
  sort_lanes-All s [] a = tt
  sort_lanes-All s (l ∷ ls) a = insert_lane-All s l (sort_lanes s ls) a.0 (sort_lanes-All s ls a.1)

waiting-All : (s : Scheduler) (ls : List Lane) → All (λ l. waits s l ≡ true) (waiting s ls)
unfolding waiting
waiting-All s [] = tt
waiting-All s (l ∷ ls) = elim (Bool-cases (waits s l)) [
  | inl e ↦ rw e (e, waiting-All s ls)
  | inr e ↦ rw e (waiting-All s ls)
]

waiting-cons_All :
    (P : Lane → Type 0) (s : Scheduler) (l : Lane) (ls : List Lane)
    → All P (waiting s (l ∷ ls))
    → (waits s l ≡ true → P l) × All P (waiting s ls)
unfolding waiting
waiting-cons_All P s l ls a = elim (Bool-cases (waits s l)) [
  | inl e ↦ let b : P l × All P (waiting s ls) = rw e at a in (λ _. b.0, b.1)
  | inr e ↦ let b : All P (waiting s ls) = rw e at a in (λ h. cc, b)
]

-- A property of the lanes that `filter` keeps holds of each lane that waits.
waiting_every :
    (P : Lane → Type 0) (s : Scheduler) (m : Lane)
    → All P (waiting s lanes)
    → waits s m ≡ true
    → P m
waiting_every P s m a h = pick m h
  where
    c1 : (waits s control ≡ true → P control) × All P (waiting s (voice ∷ text ∷ file ∷ []))
    c1 = waiting-cons_All P s control (voice ∷ text ∷ file ∷ []) a

    c2 : (waits s voice ≡ true → P voice) × All P (waiting s (text ∷ file ∷ []))
    c2 = waiting-cons_All P s voice (text ∷ file ∷ []) c1.1

    c3 : (waits s text ≡ true → P text) × All P (waiting s (file ∷ []))
    c3 = waiting-cons_All P s text (file ∷ []) c2.1

    pick : (m : Lane) → waits s m ≡ true → P m
    pick control h = c1.0 h
    pick voice h = c2.0 h
    pick text h = c3.0 h
    pick file h = (waiting-cons_All P s file [] c3.1).0 h

pub pick_lane-waits : (s : Scheduler) (l : Lane) → pick_lane s ≡ some l → waits s l ≡ true
unfolding pick_lane
pick_lane-waits s l e =
    go (sort_lanes s (waiting s lanes)) e
      (sort_lanes-All (λ k. waits s k ≡ true) s (waiting s lanes) (waiting-All s lanes))
  where
    go : (ls : List Lane) → first ls ≡ some l → All (λ k. waits s k ≡ true) ls → waits s l ≡ true
    go [] e a = cc
    go (k ∷ ks) e a = let same : k ≡ l = cc in rw (← same) a.0

-- No waiting lane has a higher priority than the lane picked.
pub pick_lane-top :
    (s : Scheduler) (l m : Lane)
    → pick_lane s ≡ some l
    → waits s m ≡ true
    → priority_of s m ≤ priority_of s l
unfolding pick_lane
pick_lane-top s l m e h =
    go (sort_lanes s (waiting s lanes)) e (sort_lanes-Tops s (waiting s lanes))
  where
    go :
        (ls : List Lane)
        → first ls ≡ some l
        → Tops s (waiting s lanes) ls
        → priority_of s m ≤ priority_of s l
    go [] e t = cc
    go (k ∷ ks) e t =
        let same : k ≡ l = cc in
        rw (← same) (waiting_every (λ j. priority_of s j ≤ priority_of s k) s m t h)

pub pick_lane-none : (s : Scheduler) (m : Lane) → pick_lane s ≡ none → waits s m ≡ false
unfolding pick_lane
pick_lane-none s m e = go (sort_lanes s (waiting s lanes)) e (sort_lanes-Tops s (waiting s lanes))
  where
    go : (ls : List Lane) → first ls ≡ none → Tops s (waiting s lanes) ls → waits s m ≡ false
    go [] e t = elim (Bool-cases (waits s m)) [
      | inl h ↦ absurd (waiting_every (λ _. ⊥) s m (rw t tt) h)
      | inr h ↦ h
    ]
    go (k ∷ ks) e t = cc

-- A lane that does not wait is empty.
waits-false : (s : Scheduler) (m : Lane) → waits s m ≡ false → contents s m ≡ []
waits-false s m h = go (contents s m) h
  where
    go : (ps : List QueuedPacket) → not (is_empty ps) ≡ false → ps ≡ []
    go [] e = refl
    go (p ∷ ps) e = cc

waits-true :
    (s : Scheduler) (l : Lane)
    → waits s l ≡ true
    → (p : QueuedPacket) × (rest : List QueuedPacket) × (contents s l ≡ p ∷ rest)
waits-true s l h = go (contents s l) h
  where
    go :
        (ps : List QueuedPacket)
        → not (is_empty ps) ≡ true
        → (p : QueuedPacket) × (rest : List QueuedPacket) × (ps ≡ p ∷ rest)
    go [] e = cc
    go (p ∷ rest) e = (p, rest, refl)

waits_of_ne : (s : Scheduler) (m : Lane) → contents s m ≢ [] → waits s m ≡ true
waits_of_ne s m h = elim (Bool-cases (waits s m)) [
  | inl e ↦ e
  | inr e ↦ absurd (h (waits-false s m e))
]

-- What a call of `next` does, on its two branches.
pub next_cases :
    (s : Scheduler)
    → ((pick_lane s ≡ none) × (next s ≡ (none, s)))
      ⊎ ((l : Lane) × (p : QueuedPacket) × (rest : List QueuedPacket) × (pick_lane s ≡ some l)
          × (contents s l ≡ p ∷ rest)
          × (next s ≡ (some p, drop_head s l p rest)))
unfolding next take_from take_packet
next_cases s = elim (Option-cases (pick_lane s)) [
  | inl e ↦ inl (e, rw e)
  | inr (l, e) ↦
      let (p, rest, h) = waits-true s l (pick_lane-waits s l e) in inr (l, p, rest, e, h, rw (e, h))
]

-- A lane after `next` served lane `l`.
served_lane :
    (s : Scheduler) (l n : Lane) (p : QueuedPacket) (rest : List QueuedPacket)
    → contents s l ≡ p ∷ rest
    → let t = drop_head s l p rest in
      contents s n ≡ (if lane_eq n l then p ∷ contents t n else contents t n)
served_lane s l n p rest e =
    ground (arith, packets-drop_head s l p rest, contents-drop_head_ne s l n p rest)

-- If some lane `m` holds a packet, `next` hands out the oldest packet of a lane `l` whose priority
-- is not below that of `m`; that packet leaves `l` and every other lane stays as it was.
pub next_serves :
    (s : Scheduler) (m n : Lane)
    → contents s m ≢ []
    → (l : Lane) × (p : QueuedPacket) × ((next s).0 ≡ some p)
      × (priority_of s m ≤ priority_of s l)
      × (contents s l ≡ p ∷ contents (next s).1 l)
      × (contents s n ≡ (if lane_eq n l then p ∷ contents (next s).1 n else contents (next s).1 n))
next_serves s m n h = elim (next_cases s) [
  | inl (e, _) ↦ absurd (h (waits-false s m (pick_lane-none s m e)))
  | inr (l, p, rest, e, c, r) ↦ (
    l,
    p,
    rw r,
    pick_lane-top s l m e (waits_of_ne s m h),
    rw (r, packets-drop_head s l p rest) c,
    rw r (served_lane s l n p rest c),
  )
]

-- `next` answers nothing, and changes nothing, exactly when every lane is empty.
pub next-none_iff : (s : Scheduler) → (next s ≡ (none, s)) ↔ ((m : Lane) → contents s m ≡ [])
next-none_iff s = (forth, back)
  where
    forth : next s ≡ (none, s) → (m : Lane) → contents s m ≡ []
    forth e m = elim (next_cases s) [
      | inl (n, _) ↦ waits-false s m (pick_lane-none s m n)
      | inr (l, p, rest, f, c, r) ↦ absurd (clash p (ap (λ x. x.0) (sym r ∙ e)))
    ]
      where
        clash : (p : QueuedPacket) → some p ≡ none → ⊥
        clash p h = cc

    back : ((m : Lane) → contents s m ≡ []) → next s ≡ (none, s)
    back h = elim (next_cases s) [ inl (_, r) ↦ r | inr (l, p, rest, f, c, r) ↦ cc (h l) ]
