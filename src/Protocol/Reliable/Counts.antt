-- ===== src/Protocol/Reliable/Counts.antt =====
-- Counting a message's copies among the events of a channel, and its attempts among the objects.
use onlytwo.Base.{
  ℕ, ◌+◌, ◌*◌, ◌≤◌, ◌≡◌, refl, some, List, [], ◌∷◌, ◌++◌, ◌==◌, arith, All, Bool-cases, inl, inr,
  if◌then◌else◌,
}
use onlytwo.Protocol.Reliable.{
  Event, PendingReliable, Call, find, modify, sends_body, reliable_msg, sends,
}
use onlytwo.Protocol.Reliable.Attempts.{IsLimited}

module _ {A : Type 0} where
  -- One if the event is a copy of message `id` given to `callbacks.send`.
  unfoldable pub copies : ℕ → Event A → ℕ
  copies id (sends (reliable_msg i channel body created_at attempt) _) = if id == i then 1 else 0
  copies id _ = 0

  unfoldable pub sends_of : ℕ → List (Event A) → ℕ
  unfolding copies
  sends_of id [] = 0
  sends_of id (e ∷ es) = copies id e + sends_of id es

  -- One if the call of `send` has drawn this id.
  unfoldable pub draws : ℕ → Call A → ℕ
  draws id (sends_body i tracking_id channel body now) = if id == i then 1 else 0
  draws id _ = 0

  unfoldable pub bodies_of : ℕ → List (Call A) → ℕ
  unfolding draws
  bodies_of id [] = 0
  bodies_of id (x ∷ xs) = draws id x + bodies_of id xs

  -- The attempts that the objects with this id count together, and how many there are.
  unfoldable pub attempts_of : ℕ → List (PendingReliable A) → ℕ
  attempts_of id [] = 0
  attempts_of id (p ∷ ps) = (if id == p.id then p.attempts else 0) + attempts_of id ps

  unfoldable pub objects_of : ℕ → List (PendingReliable A) → ℕ
  objects_of id [] = 0
  objects_of id (p ∷ ps) = (if id == p.id then 1 else 0) + objects_of id ps

  pub sends_of-append :
      (id : ℕ) (es fs : List (Event A)) → sends_of id (es ++ fs) ≡ sends_of id es + sends_of id fs
  unfolding sends_of
  sends_of-append id [] fs = omega arith
  sends_of-append id (e ∷ es) fs = omega (arith, sends_of-append id es fs)

  pub attempts_of-append :
      (id : ℕ) (ps qs : List (PendingReliable A))
      → attempts_of id (ps ++ qs) ≡ attempts_of id ps + attempts_of id qs
  unfolding attempts_of
  attempts_of-append id [] qs = omega arith
  attempts_of-append id (p ∷ ps) qs = omega (arith, attempts_of-append id ps qs)

  pub objects_of-append :
      (id : ℕ) (ps qs : List (PendingReliable A))
      → objects_of id (ps ++ qs) ≡ objects_of id ps + objects_of id qs
  unfolding objects_of
  objects_of-append id [] qs = omega arith
  objects_of-append id (p ∷ ps) qs = omega (arith, objects_of-append id ps qs)

  -- What a change of one object adds to the attempts of message `id`.
  pub attempts_of-modify :
      (id i n : ℕ) (f : PendingReliable A → PendingReliable A) (ps : List (PendingReliable A))
      (p : PendingReliable A)
      → find i ps ≡ some p
      → ((q : PendingReliable A) → ((f q).id ≡ q.id) × ((f q).attempts ≡ q.attempts + n))
      → attempts_of id (modify i f ps) ≡ attempts_of id ps + (if id == i then n else 0)
  unfolding attempts_of modify find
  attempts_of-modify id i n f [] p e k = cc
  attempts_of-modify id i n f (q ∷ ps) p e k = ground (arith, k q, attempts_of-modify id i n f ps p)

  pub attempts_of-same :
      (id i : ℕ) (f : PendingReliable A → PendingReliable A) (ps : List (PendingReliable A))
      → ((q : PendingReliable A) → ((f q).id ≡ q.id) × ((f q).attempts ≡ q.attempts))
      → attempts_of id (modify i f ps) ≡ attempts_of id ps
  unfolding attempts_of modify
  attempts_of-same id i f [] k = refl
  attempts_of-same id i f (q ∷ ps) k = ground (arith, k q, attempts_of-same id i f ps k)

  pub objects_of-modify :
      (id i : ℕ) (f : PendingReliable A → PendingReliable A) (ps : List (PendingReliable A))
      → ((q : PendingReliable A) → (f q).id ≡ q.id)
      → objects_of id (modify i f ps) ≡ objects_of id ps
  unfolding objects_of modify
  objects_of-modify id i f [] k = refl
  objects_of-modify id i f (q ∷ ps) k = ground (arith, k q, objects_of-modify id i f ps k)

  pub attempts_bounded :
      (m id : ℕ) (ps : List (PendingReliable A))
      → All (IsLimited m) ps
      → attempts_of id ps ≤ objects_of id ps * m
  unfolding attempts_of objects_of
  attempts_bounded m id [] h = omega arith
  attempts_bounded m id (p ∷ ps) h = elim (Bool-cases (id == p.id)) [
    | inl e ↦ rw e (omega (arith, h.0.attempts_limited, attempts_bounded m id ps h.1))
    | inr e ↦ rw e (omega (arith, attempts_bounded m id ps h.1))
  ]
