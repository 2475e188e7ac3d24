-- ===== src/Crypto/Worker/Replay.antt =====
-- Replay protection: which counters the receiver can never accept again.
use onlytwo.Base.{
  ℕ, ◌+◌, ◌-◌, ◌≤◌, ◌<◌, ◌≡◌, refl, Bool, true, false, Option, none, some, List, [], ◌∷◌, ◌⊎◌, inl,
  inr, Bytes, arith, Option-cases,
}
use onlytwo.Crypto.Platform.{Platform}
use onlytwo.Crypto.Worker.{
  Worker, DecryptRequest, Reply, ok, err, KeyCache, cache_get, skip_keys, decrypt_cached,
  decrypt_ahead, decrypt_with, decrypt_checked, decrypt_binary, session_not_established,
}
use onlytwo.Crypto.Worker.Cache.{
  IsDistinct, get-delete, get-delete_self, get-skip_keys, skip_keys-IsDistinct, delete-IsDistinct,
}

-- The counter is behind the receiving chain, and its key is not cached.
abbrev pub Consumed : Worker → ℕ → Type 0
Consumed w c = (c ≤ w.highest_inbound_counter) × (cache_get c w.skipped_keys ≡ none)

abbrev pub IsAccepted : Reply Bytes → Type 0
IsAccepted (ok text) = Unit {0}
IsAccepted (err e) = ⊥

module _ (p : Platform) where
  -- The number of keys that `decryptBinary` skips for a request.
  abbrev skipped : Worker → DecryptRequest → Bytes → Bytes × KeyCache
  skipped w r chain =
      skip_keys p w.config.max_skipped_message_keys (r.counter - (w.highest_inbound_counter + 1))
        (w.highest_inbound_counter + 1) chain w.skipped_keys

  cached-Consumed :
      (w : Worker) (r : DecryptRequest) (key : Bytes) (c : ℕ)
      → Consumed w c
      → Consumed (decrypt_cached p w r key).1 c
  unfolding decrypt_cached
  cached-Consumed w r key c h = ground (arith, get-delete c r.counter w.skipped_keys)

  ahead-Consumed :
      (w : Worker) (r : DecryptRequest) (chain : Bytes) (c : ℕ)
      → w.highest_inbound_counter < r.counter
      → Consumed w c
      → Consumed (decrypt_ahead p w r chain).1 c
  unfolding decrypt_ahead
  ahead-Consumed w r chain c l h =
      let kept =
        get-skip_keys p w.config.max_skipped_message_keys
          (r.counter - (w.highest_inbound_counter + 1)) (w.highest_inbound_counter + 1) c chain
          w.skipped_keys (inl (omega arith)) h.1 in
      ground (arith, kept)

  checked-Consumed :
      (w : Worker) (r : DecryptRequest) (chain : Bytes) (c : ℕ)
      → Consumed w c
      → Consumed (decrypt_checked p w r chain).1 c
  unfolding decrypt_checked decrypt_with
  checked-Consumed w r chain c h = elim (Option-cases (cache_get r.counter w.skipped_keys)) [
    | inl e ↦ ground (arith, e, ahead-Consumed w r chain c)
    | inr (key, e) ↦ ground (arith, e, cached-Consumed w r key c h)
  ]

  pub decrypt_cases :
      (w : Worker) (r : DecryptRequest)
      → (decrypt_binary p w r ≡ (err session_not_established, w))
        ⊎ ((chain : Bytes) × (w.session_established ≡ true)
            × (w.receive_chain_key ≡ some chain)
            × (decrypt_binary p w r ≡ decrypt_checked p w r chain))
  unfolding decrypt_binary
  decrypt_cases w r = go w.session_established w.receive_chain_key refl refl
    where
      go :
          (b : Bool) (k : Option Bytes)
          → w.session_established ≡ b
          → w.receive_chain_key ≡ k
          → (decrypt_binary p w r ≡ (err session_not_established, w))
            ⊎ ((chain : Bytes) × (w.session_established ≡ true)
                × (w.receive_chain_key ≡ some chain)
                × (decrypt_binary p w r ≡ decrypt_checked p w r chain))
      go false k e f = inl (rw e)
      go true none e f = inl (rw (e, f))
      go true (some chain) e f = inr (chain, e, f, rw (e, f))

  -- No request, accepted or not, genuine or forged, makes a consumed counter acceptable again.
  pub decrypt-Consumed :
      (w : Worker) (r : DecryptRequest) (c : ℕ) → Consumed w c → Consumed (decrypt_binary p w r).1 c
  decrypt-Consumed w r c h = elim (decrypt_cases w r) [
    | inl e ↦ rw e h
    | inr (chain, _, _, e) ↦ rw e (checked-Consumed w r chain c h)
  ]

  checked_rejects :
      (w : Worker) (r : DecryptRequest) (chain : Bytes)
      → Consumed w r.counter
      → (decrypt_checked p w r chain).1 ≡ w × ¬ IsAccepted (decrypt_checked p w r chain).0
  unfolding decrypt_checked decrypt_with
  checked_rejects w r chain h = ground arith

  -- A request with a consumed counter is refused, and changes nothing.
  pub Consumed-rejected :
      (w : Worker) (r : DecryptRequest)
      → Consumed w r.counter
      → ((decrypt_binary p w r).1 ≡ w) × (¬ IsAccepted (decrypt_binary p w r).0)
  Consumed-rejected w r h = elim (decrypt_cases w r) [
    | inl e ↦ rw e (refl, λ x. x)
    | inr (chain, _, _, e) ↦ rw e (checked_rejects w r chain h)
  ]

  -- Every cached key belongs to a counter behind the receiving chain, and to one entry.
  pub record IsOrderly (w : Worker) : Type 0 where
    pub behind : (c : ℕ) → w.highest_inbound_counter < c → cache_get c w.skipped_keys ≡ none
    pub distinct : IsDistinct w.skipped_keys

  cached_accepts :
      (w : Worker) (r : DecryptRequest) (key : Bytes)
      → r.counter ≤ w.highest_inbound_counter
      → IsDistinct w.skipped_keys
      → IsAccepted (decrypt_cached p w r key).0
      → Consumed (decrypt_cached p w r key).1 r.counter
  unfolding decrypt_cached
  cached_accepts w r key l d h = ground (arith, get-delete_self r.counter w.skipped_keys d)

  ahead_accepts :
      (w : Worker) (r : DecryptRequest) (chain : Bytes)
      → w.highest_inbound_counter < r.counter
      → cache_get r.counter w.skipped_keys ≡ none
      → IsAccepted (decrypt_ahead p w r chain).0
      → Consumed (decrypt_ahead p w r chain).1 r.counter
  unfolding decrypt_ahead
  ahead_accepts w r chain l e h =
      let start = w.highest_inbound_counter + 1 in
      let kept =
        get-skip_keys p w.config.max_skipped_message_keys (r.counter - start) start r.counter chain
          w.skipped_keys (inr (omega arith)) e in
      ground (arith, kept)

  checked_accepts :
      (w : Worker) (r : DecryptRequest) (chain : Bytes)
      → IsOrderly w
      → IsAccepted (decrypt_checked p w r chain).0
      → Consumed (decrypt_checked p w r chain).1 r.counter
  unfolding decrypt_checked decrypt_with
  checked_accepts w r chain o h = elim (Option-cases (cache_get r.counter w.skipped_keys)) [
    | inl e ↦ ground (arith, e, ahead_accepts w r chain)
    | inr (key, e) ↦
        let here : r.counter ≤ w.highest_inbound_counter = ground (arith, e, o.behind r.counter) in
        ground (arith, e, cached_accepts w r key here o.distinct)
  ]

  accepts-Consumed :
      (w : Worker) (r : DecryptRequest)
      → IsOrderly w
      → IsAccepted (decrypt_binary p w r).0
      → Consumed (decrypt_binary p w r).1 r.counter
  accepts-Consumed w r o h = elim (decrypt_cases w r) [
    | inl e ↦ absurd (let h' : ⊥ = rw e at h in h')
    | inr (chain, _, _, e) ↦ rw e (checked_accepts w r chain o (rw e at h))
  ]

  -- The state after the requests, whatever each of them answered.
  pub decrypt_all : Worker → List DecryptRequest → Worker
  decrypt_all w [] = w
  decrypt_all w (r ∷ rs) = decrypt_all (decrypt_binary p w r).1 rs

  decrypt_all-Consumed :
      (w : Worker) (rs : List DecryptRequest) (c : ℕ) → Consumed w c → Consumed (decrypt_all w rs) c
  unfolding decrypt_all
  decrypt_all-Consumed w [] c h = h
  decrypt_all-Consumed w (r ∷ rs) c h =
      decrypt_all-Consumed (decrypt_binary p w r).1 rs c (decrypt-Consumed w r c h)

  -- A frame accepted in an orderly state is never accepted again: after any further requests,
  -- forged ones included, a request with the same counter is refused and changes nothing.
  pub no_replay :
      (w : Worker) (r : DecryptRequest) (rs : List DecryptRequest) (again : DecryptRequest)
      → IsOrderly w
      → IsAccepted (decrypt_binary p w r).0
      → again.counter ≡ r.counter
      → let later = decrypt_all (decrypt_binary p w r).1 rs in
        ((decrypt_binary p later again).1 ≡ later) × (¬ IsAccepted (decrypt_binary p later again).0)
  no_replay w r rs again o h e =
      let consumed =
        decrypt_all-Consumed (decrypt_binary p w r).1 rs r.counter (accepts-Consumed w r o h) in
      Consumed-rejected (decrypt_all (decrypt_binary p w r).1 rs) again (rw e consumed)

  cached-IsOrderly :
      (w : Worker) (r : DecryptRequest) (key : Bytes)
      → IsOrderly w
      → IsOrderly (decrypt_cached p w r key).1
  unfolding decrypt_cached
  cached-IsOrderly w r key o = record {
    behind = λ c l. ground (arith, o.behind c, get-delete c r.counter w.skipped_keys);
    distinct = ground (arith, o.distinct, delete-IsDistinct r.counter w.skipped_keys o.distinct);
  }

  ahead_state :
      (w : Worker) (r : DecryptRequest) (chain : Bytes)
      → IsAccepted (decrypt_ahead p w r chain).0
      → ((decrypt_ahead p w r chain).1.highest_inbound_counter ≡ r.counter)
        × ((decrypt_ahead p w r chain).1.skipped_keys ≡ (skipped w r chain).1)
  unfolding decrypt_ahead
  ahead_state w r chain h = ground arith

  ahead-IsOrderly :
      (w : Worker) (r : DecryptRequest) (chain : Bytes)
      → w.highest_inbound_counter < r.counter
      → IsOrderly w
      → IsAccepted (decrypt_ahead p w r chain).0
      → IsOrderly (decrypt_ahead p w r chain).1
  ahead-IsOrderly w r chain l o h =
      let start = w.highest_inbound_counter + 1 in
      let n = r.counter - start in
      let max_keys = w.config.max_skipped_message_keys in
      let (top, keys) = ahead_state w r chain h in
      record {
        behind = λ c k. rw keys (
            get-skip_keys p max_keys n start c chain w.skipped_keys (inr (omega (arith, top)))
              (o.behind c (omega (arith, top))));
        distinct =
            rw keys (skip_keys-IsDistinct p max_keys n start chain w.skipped_keys o.distinct);
      }

  -- The two ways to be accepted.
  accepted_cases :
      (w : Worker) (r : DecryptRequest) (chain : Bytes)
      → IsAccepted (decrypt_checked p w r chain).0
      → ((key : Bytes) × (decrypt_checked p w r chain ≡ decrypt_cached p w r key))
        ⊎ ((w.highest_inbound_counter < r.counter)
            × (decrypt_checked p w r chain ≡ decrypt_ahead p w r chain))
  unfolding decrypt_checked decrypt_with
  accepted_cases w r chain h = elim (Option-cases (cache_get r.counter w.skipped_keys)) [
    | inl e ↦ inr (ground (arith, e), ground (arith, e))
    | inr (key, e) ↦ inl (key, ground (arith, e))
  ]

  -- An accepted request keeps the state orderly.
  pub accepts-IsOrderly :
      (w : Worker) (r : DecryptRequest)
      → IsOrderly w
      → IsAccepted (decrypt_binary p w r).0
      → IsOrderly (decrypt_binary p w r).1
  accepts-IsOrderly w r o h = elim (decrypt_cases w r) [
    | inl e ↦ rw e o
    | inr (chain, _, _, e) ↦
        let h' : IsAccepted (decrypt_checked p w r chain).0 = rw e at h in
        elim (accepted_cases w r chain h') [
          | inl (key, f) ↦ rw (e, f) (cached-IsOrderly w r key o)
          | inr (l, f) ↦ rw (e, f) (ahead-IsOrderly w r chain l o (rw f at h'))
        ]
  ]
