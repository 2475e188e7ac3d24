-- ===== src/Audio/JitterBuffer/Frames.antt =====
-- The map of client/src/features/audio/JitterBuffer.ts: what its operations do to the keys.
use onlytwo.Base.{
  Bool-cases, if_known, ◌∙◌, ℕ, suc, ◌≤◌, ◌≡◌, refl, ap, Bool, true, false, not, ◌||◌, ◌&&◌, none,
  some, List, [], ◌∷◌, ◌==◌, length, min, arith, Option-cases, inl, inr, ==_iff,
}
use onlytwo.Audio.JitterBuffer.{get, put, delete, oldest, earlier}

module _ {T : Type 0} (seq : T → ℕ) where
  unfoldable pub has : ℕ → List T → Bool
  has n [] = false
  has n (f ∷ fs) = n == seq f || has n fs

  -- No key stands twice.
  unfoldable pub AreDistinct : List T → Type 0
  AreDistinct [] = Unit
  AreDistinct (f ∷ fs) = (has (seq f) fs ≡ false) × AreDistinct fs

  pub get-has :
      (n : ℕ) (fs : List T) (f : T) → get seq n fs ≡ some f → (seq f ≡ n) × (has n fs ≡ true)
  unfolding get has
  get-has n [] f e = absurd (cc)
  get-has n (g ∷ fs) f e = elim (Bool-cases (n == seq g)) [
    | inl here ↦
        let same : seq g ≡ seq f = ap seq (let t : g ≡ f = ground (arith, e, here) in t) in
        ground (arith, here, same)
    | inr further ↦ let rest = get-has n fs f (ground (arith, e, further)) in ground (arith, rest)
  ]

  pub has-put : (n : ℕ) (f : T) (fs : List T) → has n (put seq f fs) ≡ (n == seq f || has n fs)
  unfolding put has
  has-put n f [] = refl
  has-put n f (g ∷ fs) = ground (arith, has-put n f fs)

  pub put-AreDistinct : (f : T) (fs : List T) → AreDistinct fs → AreDistinct (put seq f fs)
  unfolding put has AreDistinct
  put-AreDistinct f [] d = (refl, tt)
  put-AreDistinct f (g ∷ fs) d =
      if_known AreDistinct (seq f == seq g)
        (λ here. (ap (λ n. has n fs) ((==_iff (seq f) (seq g)).0 here) ∙ d.0, d.1))
        (λ other.
          let new = has-put (seq g) f fs in
          (ground (arith, new, other, d), put-AreDistinct f fs d.1))

  pub has-delete :
      (m n : ℕ) (fs : List T)
      → AreDistinct fs
      → has m (delete seq n fs) ≡ (not (m == n) && has m fs)
  unfolding delete has AreDistinct
  has-delete m n [] d = ground arith
  has-delete m n (g ∷ fs) d = elim (Bool-cases (m == seq g)) [
    | inl here ↦
        let gone = ap (λ k. has k fs) ((==_iff m (seq g)).0 here) ∙ d.0 in
        ground (arith, has-delete m n fs d.1, here, gone)
    | inr other ↦ ground (arith, has-delete m n fs d.1, other)
  ]

  pub delete-AreDistinct : (n : ℕ) (fs : List T) → AreDistinct fs → AreDistinct (delete seq n fs)
  unfolding delete has AreDistinct
  delete-AreDistinct n [] d = d
  delete-AreDistinct n (g ∷ fs) d =
      if_known AreDistinct (n == seq g) (λ _. d.1)
        (λ other.
          let rest = has-delete (seq g) n fs d.1 in
          (ground (arith, rest, d), delete-AreDistinct n fs d.1))

  pub length-delete :
      (n : ℕ) (fs : List T) → has n fs ≡ true → suc (length (delete seq n fs)) ≡ length fs
  unfolding delete has
  length-delete n [] e = cc
  length-delete n (g ∷ fs) e = ground (arith, length-delete n fs, e)

  has-none : (fs : List T) → oldest seq fs ≡ none → (m : ℕ) → has m fs ≡ false
  unfolding oldest has
  has-none [] e m = refl
  has-none (f ∷ fs) e m = absurd (cc)

  -- The oldest key is there, and no key is below it.
  pub oldest-has :
      (fs : List T) (n : ℕ)
      → oldest seq fs ≡ some n
      → (has n fs ≡ true) × ((m : ℕ) → has m fs ≡ true → n ≤ m)
  unfolding oldest has earlier
  oldest-has [] n e = absurd (cc)
  oldest-has (f ∷ fs) n e = elim (Option-cases (oldest seq fs)) [
    | inl alone ↦
        let first : n ≡ seq f = ground (arith, e, alone) in
        let empty = has-none fs alone in
        (ground (arith, first), λ m h. let no = empty m in ground (arith, first, h, no))
    | inr (k, rest) ↦
        let first : n ≡ min (seq f) k = ground (arith, e, rest) in
        let (there, least) = oldest-has fs k rest in
        (
          elim (Bool-cases (n == k)) [
            | inl same ↦
                let t = ap (λ m. has m fs) ((==_iff n k).0 same) in ground (arith, t, there)
            | inr other ↦ ground (arith, first, other)
          ],
          λ m h. let low = least m in ground (arith, first, h, low),
        )
  ]

  pub oldest_some : (fs : List T) → oldest seq fs ≡ none → length fs ≡ 0
  unfolding oldest
  oldest_some [] e = refl
  oldest_some (f ∷ fs) e = absurd (cc)

  pub get-none : (n : ℕ) (fs : List T) → get seq n fs ≡ none → has n fs ≡ false
  unfolding get has
  get-none n [] e = refl
  get-none n (f ∷ fs) e = ground (arith, e, get-none n fs)
