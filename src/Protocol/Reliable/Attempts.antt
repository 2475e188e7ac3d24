-- ===== src/Protocol/Reliable/Attempts.antt =====
-- The attempts that an object of a channel counts.
use mathlib.Core.Option
use onlytwo.Base.{
  if_either, ℕ, ◌≤◌, ◌<◌, ◌≡◌, refl, ap, sym, true, false, Bool, none, some, List, [], ◌∷◌, ◌++◌,
  leb, ◌==◌, arith, All, Bool-cases, inl, inr, subst, Option, ◌∙◌,
}
use onlytwo.Protocol.Reliable.{
  Event, resets, delivered, failed, Channel, PendingReliable, Call, find, modify, clear_pending,
  begin_attempt, arm_retry, landed, retries, expires, step, ReliablePolicy, conclude, fail_pending,
  fire, resolve, ring, send, sent, Alarm, Event, String, fresh, ReliableChannelName, clear_each,
  fail_all, fail_each, receive, Message, reset, reliable_ack, sends_body, resolves, sweep_seen,
  delivered, rings, receives, reliable_nack, failed, fails_all, reliable_msg, has_seen, fired,
  quiet, resolved, rung,
}

-- The attempts of a message are within the limit, and below it while another one is due.
pub record IsLimited {A : Type 0} (max_attempts : ℕ) (p : PendingReliable A) : Type 0 where
  pub attempts_limited : p.attempts ≤ max_attempts
  pub retry_limited : p.timer ≡ some retries → p.attempts < max_attempts

module _ {A : Type 0} where
  All-modify :
      (P : PendingReliable A → Type 0) (id : ℕ) (f : PendingReliable A → PendingReliable A)
      (ps : List (PendingReliable A))
      → ((p : PendingReliable A) → find id ps ≡ some p → P p → P (f p))
      → All P ps
      → All P (modify id f ps)
  unfolding modify find
  All-modify P id f [] k h = tt
  All-modify P id f (p ∷ ps) k h = elim (Bool-cases (id == p.id)) [
    | inl e ↦ rw e (k p (rw e refl) h.0, h.1)
    | inr e ↦ rw e (h.0, All-modify P id f ps (λ q m. k q (rw e m)) h.1)
  ]

  All-append :
      (P : PendingReliable A → Type 0) (ps qs : List (PendingReliable A))
      → All P qs
      → All P ps
      → All P (ps ++ qs)
  All-append P [] qs q h = q
  All-append P (p ∷ ps) qs q h = (h.0, All-append P ps qs q h.1)

  pub find_id :
      (id : ℕ) (ps : List (PendingReliable A)) (p : PendingReliable A)
      → find id ps ≡ some p
      → id ≡ p.id
  unfolding find
  find_id id [] p h = cc
  find_id id (q ∷ ps) p h = ground (arith, find_id id ps p)

  pub All-find :
      (P : PendingReliable A → Type 0) (id : ℕ) (ps : List (PendingReliable A))
      (p : PendingReliable A)
      → find id ps ≡ some p
      → All P ps
      → P p
  unfolding find
  All-find P id [] p h a = cc
  All-find P id (q ∷ ps) p h a = elim (Bool-cases (id == q.id)) [
    | inl e ↦ subst P (Option.some-injective _ _ (rw e at h)) a.0
    | inr e ↦ All-find P id ps p (rw e at h) a.1
  ]

  clear-IsLimited : (m : ℕ) (p : PendingReliable A) → IsLimited m p → IsLimited m (clear_pending p)
  unfolding clear_pending
  clear-IsLimited m p v = record { attempts_limited = v.attempts_limited; retry_limited = λ e. cc }

  begin-IsLimited :
      (m now : ℕ) (p : PendingReliable A)
      → p.timer ≡ some retries
      → IsLimited m p
      → IsLimited m (begin_attempt now p)
  unfolding begin_attempt
  begin-IsLimited m now p t v = record {
    attempts_limited = omega (arith, v.retry_limited t);
    retry_limited = λ e. cc;
  }

  landed-IsLimited : (m : ℕ) (p : PendingReliable A) → IsLimited m p → IsLimited m (landed p)
  landed-IsLimited m p v = record {
    attempts_limited = v.attempts_limited;
    retry_limited = v.retry_limited;
  }

  arm-IsLimited :
      (policy : ReliablePolicy) (p : PendingReliable A)
      → IsLimited policy.max_attempts p
      → IsLimited policy.max_attempts (arm_retry policy p)
  unfolding arm_retry
  arm-IsLimited policy p v = record {
    attempts_limited = v.attempts_limited;
    retry_limited = elim (Bool-cases (leb policy.max_attempts p.attempts)) [
      | inl e ↦ λ h. absurd (impossible (rw e at h))
      | inr e ↦ λ h. ground arith
    ];
  }
    where
      impossible : some expires ≡ some retries → ⊥
      impossible e = cc

  change-Limited :
      (m id : ℕ) (f : PendingReliable A → PendingReliable A) (ps : List (PendingReliable A))
      → ((p : PendingReliable A) → IsLimited m p → IsLimited m (f p))
      → All (IsLimited m) ps
      → All (IsLimited m) (modify id f ps)
  change-Limited m id f ps k h = All-modify (IsLimited m) id f ps (λ p _. k p) h

-- Every object of a channel is within the limit of its policy.
abbrev pub IsSparing : {A : Type 0} → Channel A → Type 0
IsSparing c = All (IsLimited c.policy.max_attempts) c.objects

module _ {A : Type 0} where
  fail-IsSparing :
      (c : Channel A) (p : PendingReliable A) (reason : String)
      → IsSparing c
      → IsSparing (fail_pending c p reason).0
  unfolding fail_pending
  fail-IsSparing c p reason v =
      change-Limited c.policy.max_attempts p.id clear_pending c.objects
        (clear-IsLimited c.policy.max_attempts) v

  resolve-IsSparing :
      (c : Channel A) (p : PendingReliable A) (ok : Bool)
      → IsSparing c
      → IsSparing (resolve c p ok).0
  unfolding resolve
  resolve-IsSparing c p true v =
      change-Limited c.policy.max_attempts p.id (λ q. arm_retry c.policy (landed q)) c.objects
        (λ q w. arm-IsLimited c.policy (landed q) (landed-IsLimited c.policy.max_attempts q w)) v
  resolve-IsSparing c p false v =
      fail-IsSparing (record c { objects = modify p.id landed c.objects }) p
        "Message could not be queued for transport"
        (change-Limited c.policy.max_attempts p.id landed c.objects
          (landed-IsLimited c.policy.max_attempts) v)

  sent-IsSparing : (c : Channel A) (id : ℕ) (ok : Bool) → IsSparing c → IsSparing (sent c id ok).0
  unfolding sent resolved
  sent-IsSparing c id ok v = go (find id c.objects)
    where
      go : (o : Option (PendingReliable A)) → IsSparing (resolved c ok o).0
      go none = v
      go (some p) =
          if_either (λ (x : Channel A × List (Event A)). IsSparing x.0) p.in_flight
            (resolve-IsSparing c p ok v) v

  send-IsSparing :
      (c : Channel A) (id : ℕ) (tracking_id : Option String) (channel : ReliableChannelName)
      (body : A) (now : ℕ)
      → 1 ≤ c.policy.max_attempts
      → IsSparing c
      → IsSparing (send c id tracking_id channel body now).0
  unfolding send begin_attempt fresh
  send-IsSparing c id tracking_id channel body now l v =
      All-append (IsLimited c.policy.max_attempts) c.objects _
        (record { attempts_limited = omega arith; retry_limited = λ e. cc }, tt) v

  quiet-IsLimited : (m : ℕ) (p : PendingReliable A) → IsLimited m p → IsLimited m (quiet p)
  quiet-IsLimited m p v = record { attempts_limited = v.attempts_limited; retry_limited = λ e. cc }

  ring-IsSparing :
      (c : Channel A) (p : PendingReliable A) (now : ℕ) (alarm : Alarm)
      → find p.id c.objects ≡ some p
      → p.timer ≡ some alarm
      → IsSparing c
      → IsSparing (ring c p now alarm).0
  unfolding ring
  ring-IsSparing c p now retries e t v =
      All-modify (IsLimited c.policy.max_attempts) p.id (begin_attempt now) c.objects
        (λ q f w.
          begin-IsLimited c.policy.max_attempts now q
            (ap (λ x. x.timer) (Option.some-injective _ _ (sym f ∙ e)) ∙ t) w)
        v
  ring-IsSparing c p now expires e t v = fail-IsSparing c p "Message delivery timed out" v

  rung-IsSparing :
      (c : Channel A) (p : PendingReliable A) (now : ℕ) (timer : Option Alarm)
      → find p.id c.objects ≡ some p
      → p.timer ≡ timer
      → IsSparing c
      → IsSparing (rung c p now timer).0
  unfolding rung
  rung-IsSparing c p now none e t v = v
  rung-IsSparing c p now (some alarm) e t v =
      if_either (λ (x : Channel A × List (Event A)). IsSparing x.0) p.in_map
        (ring-IsSparing c p now alarm e t v)
        (change-Limited c.policy.max_attempts p.id quiet c.objects
          (quiet-IsLimited c.policy.max_attempts) v)

  fire-IsSparing : (c : Channel A) (id now : ℕ) → IsSparing c → IsSparing (fire c id now).0
  unfolding fire fired
  fire-IsSparing c id now v = go (find id c.objects) refl
    where
      go : (o : Option (PendingReliable A)) → find id c.objects ≡ o → IsSparing (fired c now o).0
      go none e = v
      go (some p) e =
          rung-IsSparing c p now p.timer
            (subst (λ i. find i c.objects ≡ some p) (find_id id c.objects p e) e) refl v

  conclude-IsSparing :
      (c : Channel A) (event : PendingReliable A → Event A) (o : Option (PendingReliable A))
      → IsSparing c
      → IsSparing (conclude c event o).1
  unfolding conclude
  conclude-IsSparing c event none v = v
  conclude-IsSparing c event (some p) v =
      if_either (λ (x : Option A × Channel A × List (Event A)). IsSparing x.1) p.in_map
        (change-Limited c.policy.max_attempts p.id clear_pending c.objects
          (clear-IsLimited c.policy.max_attempts) v)
        v

  receive-IsSparing :
      (c : Channel A) (m : Message A) (now later : ℕ)
      → IsSparing c
      → IsSparing (receive c m now later).1
  unfolding receive
  receive-IsSparing c (reliable_ack id) now later v =
      conclude-IsSparing (record c { seen = sweep_seen now c.seen })
        (λ p. delivered id p.tracking_id) (find id c.objects) v
  receive-IsSparing c (reliable_nack id reason) now later v =
      conclude-IsSparing (record c { seen = sweep_seen now c.seen })
        (λ p. failed id p.tracking_id reason) (find id c.objects) v
  receive-IsSparing c (reliable_msg id channel body created_at attempt) now later v =
      if_either (λ (x : Option A × Channel A × List (Event A)). IsSparing x.1)
        (has_seen id (sweep_seen now c.seen)) v v

  fail_each-IsLimited :
      (m : ℕ) (reason : String) (ps : List (PendingReliable A))
      → All (IsLimited m) ps
      → All (IsLimited m) (fail_each reason ps).0
  unfolding fail_each
  fail_each-IsLimited m reason [] h = tt
  fail_each-IsLimited m reason (p ∷ ps) h =
      if_either (λ (x : List (PendingReliable A) × List (Event A)). All (IsLimited m) x.0) p.in_map
        (clear-IsLimited m p h.0, fail_each-IsLimited m reason ps h.1)
        (h.0, fail_each-IsLimited m reason ps h.1)

  clear_each-IsLimited :
      (m : ℕ) (ps : List (PendingReliable A))
      → All (IsLimited m) ps
      → All (IsLimited m) (clear_each ps)
  unfolding clear_each
  clear_each-IsLimited m [] h = tt
  clear_each-IsLimited m (p ∷ ps) h = (
    if_either (IsLimited m) p.in_map (clear-IsLimited m p h.0) h.0,
    clear_each-IsLimited m ps h.1,
  )

  pub step-policy : (c : Channel A) (x : Call A) → (step c x).policy ≡ c.policy
  unfolding step send sent resolved fire fired rung receive fail_all reset resolve ring conclude
      fail_pending
  step-policy c (sends_body id tracking_id channel body now) = refl
  step-policy c (resolves id ok) = ground arith
  step-policy c (rings id now) = ground arith
  step-policy c (receives (reliable_ack id) now later) = ground arith
  step-policy c (receives (reliable_nack id reason) now later) = ground arith
  step-policy c (receives (reliable_msg id channel body created_at attempt) now later) =
      ground arith
  step-policy c (fails_all reason) = refl
  step-policy c resets = refl

  pub step-IsSparing :
      (c : Channel A) (x : Call A) → 1 ≤ c.policy.max_attempts → IsSparing c → IsSparing (step c x)
  unfolding step fail_all reset
  step-IsSparing c (sends_body id tracking_id channel body now) l v =
      send-IsSparing c id tracking_id channel body now l v
  step-IsSparing c (resolves id ok) l v = sent-IsSparing c id ok v
  step-IsSparing c (rings id now) l v = fire-IsSparing c id now v
  step-IsSparing c (receives m now later) l v = receive-IsSparing c m now later v
  step-IsSparing c (fails_all reason) l v =
      fail_each-IsLimited c.policy.max_attempts reason c.objects v
  step-IsSparing c resets l v = clear_each-IsLimited c.policy.max_attempts c.objects v
