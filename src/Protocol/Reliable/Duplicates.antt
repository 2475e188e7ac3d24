-- ===== src/Protocol/Reliable/Duplicates.antt =====
-- Duplicates: what `receive` hands to the application.
use onlytwo.Base.{
  refl, if◌then◌else◌, inl, inr, ℕ, ◌+◌, ◌<◌, ◌≡◌, true, false, none, some, List, [], ◌∷◌, ◌++◌,
  leb, arith, All, Bool, Bool-cases, inl, inr, Option,
}
use onlytwo.Protocol.Reliable.{
  Channel, Call, Message, Event, sweep_seen, has_seen, receive, step, run, sends_body, resolves,
  rings, receives, fails_all, resets, ReliableChannelName, conclude, fire, reliable_ack, send, sent,
  PendingReliable, delivered, fail_all, reliable_msg, resolve, ring, fail_pending, reliable_nack,
  sends, control, failed, duplicate, find, fired, resolved, rung,
}

-- `id` is remembered until `t`.
pub data Remembers (id t : ℕ) : List (ℕ × ℕ) → Type 0 where
  here : (rest : List (ℕ × ℕ)) → Remembers id t ((id, t) ∷ rest)
  there : (e : ℕ × ℕ) (rest : List (ℕ × ℕ)) → Remembers id t rest → Remembers id t (e ∷ rest)

has_seen_lem : (id t : ℕ) (m : List (ℕ × ℕ)) → Remembers id t m → has_seen id m ≡ true
unfolding has_seen
has_seen_lem id t _ (here rest) = ground arith
has_seen_lem id t _ (there (i, u) rest r) = ground (arith, has_seen_lem id t rest r)

leb-false : (t now : ℕ) → now < t → leb t now ≡ false
leb-false t now l = ground arith

keep_under_if :
    (id t : ℕ) (e : ℕ × ℕ) (m : List (ℕ × ℕ)) (b : Bool)
    → Remembers id t m
    → Remembers id t (if b then m else e ∷ m)
keep_under_if id t e m true r = r
keep_under_if id t e m false r = there e m r

sweep_seen_lem :
    (id t now : ℕ) (m : List (ℕ × ℕ))
    → now < t
    → Remembers id t m
    → Remembers id t (sweep_seen now m)
unfolding sweep_seen
sweep_seen_lem id t now _ l (here rest) = rw (leb-false t now l) (here (sweep_seen now rest))
sweep_seen_lem id t now _ l (there (i, u) rest r) =
    keep_under_if id t (i, u) (sweep_seen now rest) (leb u now) (sweep_seen_lem id t now rest l r)

append_right : (id t : ℕ) (m : List (ℕ × ℕ)) → Remembers id t (m ++ (id, t) ∷ [])
append_right id t [] = here []
append_right id t (e ∷ m) = there e (m ++ (id, t) ∷ []) (append_right id t m)

append_left : (id t : ℕ) (m n : List (ℕ × ℕ)) → Remembers id t m → Remembers id t (m ++ n)
append_left id t _ n (here rest) = here (rest ++ n)
append_left id t _ n (there e rest r) = there e (rest ++ n) (append_left id t rest n r)

-- The time of a call's sweep, if it has one.
unfoldable pub IsBefore : {A : Type 0} → ℕ → Call A → Type 0
IsBefore t (receives m now later) = now < t
IsBefore t resets = ⊥
IsBefore t (sends_body id tracking_id channel body now) = Unit {0}
IsBefore t (resolves id ok) = Unit {0}
IsBefore t (rings id now) = Unit {0}
IsBefore t (fails_all reason) = Unit {0}

module _ {A : Type 0} where
  conclude-seen :
      (c : Channel A) (e : PendingReliable A → Event A) (o : Option (PendingReliable A))
      → (conclude c e o).1.seen ≡ c.seen
  unfolding conclude
  conclude-seen c e none = refl
  conclude-seen c e (some p) = ground arith

  sent-seen : (c : Channel A) (i : ℕ) (ok : Bool) → (sent c i ok).0.seen ≡ c.seen
  unfolding sent resolved resolve fail_pending
  sent-seen c i ok = ground arith

  fire-seen : (c : Channel A) (i now : ℕ) → (fire c i now).0.seen ≡ c.seen
  unfolding fire fired rung ring fail_pending
  fire-seen c i now = ground arith

  receive-Remembers :
      (c : Channel A) (m : Message A) (now later id t : ℕ)
      → now < t
      → Remembers id t c.seen
      → Remembers id t (receive c m now later).1.seen
  unfolding receive
  receive-Remembers c (reliable_ack i) now later id t l r =
      rw
        (conclude-seen (record c { seen = sweep_seen now c.seen }) (λ p. delivered i p.tracking_id)
          (find i c.objects))
        (sweep_seen_lem id t now c.seen l r)
  receive-Remembers c (reliable_nack i reason) now later id t l r =
      rw
        (conclude-seen (record c { seen = sweep_seen now c.seen })
          (λ p. failed i p.tracking_id reason) (find i c.objects))
        (sweep_seen_lem id t now c.seen l r)
  receive-Remembers c (reliable_msg i channel body created attempt) now later id t l r =
      elim (Bool-cases (has_seen i (sweep_seen now c.seen))) [
        | inl h ↦ rw h (sweep_seen_lem id t now c.seen l r)
        | inr h ↦ rw h (
            append_left id t (sweep_seen now c.seen) ((i, later + c.policy.seen_ttl_ms) ∷ [])
              (sweep_seen_lem id t now c.seen l r))
      ]

  -- What `receive` returned it does not return again before the id expires.
  step-Remembers :
      (c : Channel A) (x : Call A) (id t : ℕ)
      → IsBefore t x
      → Remembers id t c.seen
      → Remembers id t (step c x).seen
  unfolding step IsBefore send fail_all
  step-Remembers c (receives m now later) id t b r = receive-Remembers c m now later id t b r
  step-Remembers c resets id t b r = absurd b
  step-Remembers c (sends_body i tracking_id channel body now) id t b r = r
  step-Remembers c (resolves i ok) id t b r = rw (sent-seen c i ok) r
  step-Remembers c (rings i now) id t b r = rw (fire-seen c i now) r
  step-Remembers c (fails_all reason) id t b r = r

  run-Remembers :
      (c : Channel A) (xs : List (Call A)) (id t : ℕ)
      → All (IsBefore t) xs
      → Remembers id t c.seen
      → Remembers id t (run c xs).seen
  unfolding run
  run-Remembers c [] id t b r = r
  run-Remembers c (x ∷ xs) id t b r =
      run-Remembers (step c x) xs id t b.1 (step-Remembers c x id t b.0 r)

  -- A repeated message is acknowledged and reported as a duplicate, and nothing is handed out.
  receive_again :
      (c : Channel A) (id t : ℕ) (channel : ReliableChannelName) (body : A)
      (created attempt now later : ℕ)
      → now < t
      → Remembers id t c.seen
      → let (content, _, events) =
          receive c (reliable_msg id channel body created attempt) now later in
        (content ≡ none) × (events ≡ sends (reliable_ack id) control ∷ duplicate id ∷ [])
  unfolding receive
  receive_again c id t channel body created attempt now later l r =
      rw (has_seen_lem id t (sweep_seen now c.seen) (sweep_seen_lem id t now c.seen l r))
        (refl, refl)

  accepted-Remembers :
      (c : Channel A) (id : ℕ) (channel : ReliableChannelName) (body content : A)
      (created attempt now later : ℕ)
      → (receive c (reliable_msg id channel body created attempt) now later).0 ≡ some content
      → Remembers id
          (later + c.policy.seen_ttl_ms)
          (receive c (reliable_msg id channel body created attempt) now later).1.seen
  unfolding receive
  accepted-Remembers c id channel body content created attempt now later h =
      elim (Bool-cases (has_seen id (sweep_seen now c.seen))) [
        | inl s ↦ absurd (impossible (rw s at h))
        | inr s ↦ rw s (append_right id (later + c.policy.seen_ttl_ms) (sweep_seen now c.seen))
      ]
    where
      impossible : none ≡ some content → ⊥
      impossible e = cc

  -- A message handed to the application is not handed out again before its id expires, whatever is
  -- called in between but `reset`: a later copy, with whatever content, is acknowledged once more
  -- and reported as a duplicate.
  pub delivered_once :
      (c : Channel A) (id : ℕ) (channel other : ReliableChannelName) (body content copy : A)
      (created attempt again now later now_2 later_2 : ℕ) (xs : List (Call A))
      → (receive c (reliable_msg id channel body created attempt) now later).0 ≡ some content
      → All (IsBefore (later + c.policy.seen_ttl_ms)) xs
      → now_2 < later + c.policy.seen_ttl_ms
      → let between =
          run (receive c (reliable_msg id channel body created attempt) now later).1 xs in
        let (answer, _, events) =
          receive between (reliable_msg id other copy created again) now_2 later_2 in
        (answer ≡ none) × (events ≡ sends (reliable_ack id) control ∷ duplicate id ∷ [])
  delivered_once c id channel other body content copy created attempt again now later now_2 later_2
        xs h b l =
      receive_again _ id (later + c.policy.seen_ttl_ms) other copy created again now_2 later_2 l (
        run-Remembers _ xs id (later + c.policy.seen_ttl_ms) b
          (accepted-Remembers c id channel body content created attempt now later h))
