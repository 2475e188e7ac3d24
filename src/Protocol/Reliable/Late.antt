-- ===== src/Protocol/Reliable/Late.antt =====
-- An answer that arrives while a further copy of the message is being sent.
use onlytwo.Base.{
  ℕ, ◌≡◌, true, false, none, some, List, [], ◌∷◌, ◌==◌, arith, Bool-cases, inl, ap, inr,
}
use onlytwo.Protocol.Reliable.{
  Channel, PendingReliable, find, modify, clear_pending, receive, sent, reliable_ack, delivered,
  failed, resolved, resolve, fail_pending, conclude, sweep_seen,
}

module _ {A : Type 0} where
  find_cleared :
      (id : ℕ) (ps : List (PendingReliable A)) (p : PendingReliable A)
      → find id ps ≡ some p
      → find id (modify id clear_pending ps) ≡ some (clear_pending p)
  unfolding find modify clear_pending
  find_cleared id [] p h = cc
  find_cleared id (q ∷ ps) p h = elim (Bool-cases (id == q.id)) [
    | inl e ↦
        let same : some q ≡ some p = rw e at h in
        let q_is_p : q ≡ p = cc in rw (e, e) (ap (λ x. some (clear_pending x)) q_is_p)
    | inr e ↦ rw (e, e) (find_cleared id ps p (rw e at h))
  ]

  acked :
      (c : Channel A) (p : PendingReliable A) (id now later : ℕ)
      → find id c.objects ≡ some p
      → p.in_map ≡ true
      → receive c (reliable_ack id) now later ≡ (
        none,
        record c { objects = modify p.id clear_pending c.objects; seen = sweep_seen now c.seen },
        delivered id p.tracking_id ∷ [],
      )
  unfolding receive conclude
  acked c p id now later e m = rw e (ground (arith, m))

  -- When the acknowledgement of a message arrives while a further copy of it is being sent, and
  -- that copy then cannot be queued, the message is reported as delivered and after that as failed.
  pub delivered_then_failed :
      (c : Channel A) (p : PendingReliable A) (now later : ℕ)
      → find p.id c.objects ≡ some p
      → p.in_map ≡ true
      → p.in_flight ≡ true
      → let (_, d, first) = receive c (reliable_ack p.id) now later in
        (first ≡ delivered p.id p.tracking_id ∷ [])
        × ((sent d p.id false).1
            ≡ failed p.id p.tracking_id "Message could not be queued for transport" ∷ [])
  unfolding sent resolved resolve fail_pending clear_pending
  delivered_then_failed c p now later e m f =
      let found = find_cleared p.id c.objects p e in
      let settled = acked c p p.id now later e m in ground (arith, settled, found)
