-- ===== src/Base/Dict.antt =====
-- A `Map` with texts for keys, in insertion order.
use Prim.Native.String.{String}
use text.Mathlib.Text
use text.Mathlib.TextEquality.{eq_iff}
use mathlib.Core.Path.{◌≡◌, refl, subst}
use mathlib.Core.Logic.{◌≢◌, inl, inr}
use mathlib.Core.Bool.{Bool, true, false}
use mathlib.Core.Option.{Option, none, some}
use mathlib.Core.List.{List, [], ◌∷◌}
use native.Mathlib.Omega.{arith}
use onlytwo.Base.Tests.{if◌then◌else◌, if_either, Bool-cases}
use onlytwo.Base.Lists.{All}

abbrev pub Dict : Type 0 → Type 0
Dict V = List (String × V)

abbrev pub same : String → String → Bool
same s t = Text.◌==◌ s t

pub same_refl : (s : String) → same s s ≡ true
same_refl s = (eq_iff s s).1 refl

pub same_ne : (s t : String) → s ≢ t → same s t ≡ false
same_ne s t h = ground (arith, eq_iff s t)

module _ {V : Type 0} where
  unfoldable pub find : String → Dict V → Option V
  find k [] = none
  find k ((j, v) ∷ d) = if same k j then some v else find k d

  -- `map.set`, which keeps the place of a key that is there.
  unfoldable pub insert : String → V → Dict V → Dict V
  insert k v [] = (k, v) ∷ []
  insert k v ((j, w) ∷ d) = if same k j then (j, v) ∷ d else (j, w) ∷ insert k v d

  unfoldable pub erase : String → Dict V → Dict V
  erase k [] = []
  erase k ((j, v) ∷ d) = if same k j then d else (j, v) ∷ erase k d

  -- `map.values()`
  unfoldable pub values : Dict V → List V
  values [] = []
  values ((_, v) ∷ d) = v ∷ values d

  pub find-insert_self : (k : String) (v : V) (d : Dict V) → find k (insert k v d) ≡ some v
  unfolding find insert
  find-insert_self k v [] = rw (same_refl k) refl
  find-insert_self k v ((j, w) ∷ d) = ground (arith, find-insert_self k v d, eq_iff k j)

  pub find-insert_ne :
      (j k : String) (v : V) (d : Dict V) → j ≢ k → find j (insert k v d) ≡ find j d
  unfolding find insert
  find-insert_ne j k v [] h = rw (same_ne j k h) refl
  find-insert_ne j k v ((i, w) ∷ d) h =
      ground (arith, find-insert_ne j k v d h, eq_iff k i, eq_iff j i)

module _ {V : Type 0} (P : V → Type 0) where
  -- What holds of every value of a map holds of those that are found in it.
  pub All-find : (k : String) (v : V) (d : Dict V) → All P (values d) → find k d ≡ some v → P v
  unfolding find values
  All-find k v [] h e = absurd (cc)
  All-find k v ((j, w) ∷ d) h e = elim (Bool-cases (same k j)) [
    | inl here ↦ subst P (let s : w ≡ v = ground (arith, e, here) in s) h.0
    | inr further ↦ All-find k v d h.1 (ground (arith, e, further))
  ]

  pub All-insert :
      (k : String) (v : V) (d : Dict V) → P v → All P (values d) → All P (values (insert k v d))
  unfolding insert values
  All-insert k v [] p h = (p, h)
  All-insert k v ((j, w) ∷ d) p h =
      if_either (λ x. All P (values x)) (same k j) (p, h.1) (h.0, All-insert k v d p h.1)

  pub All-erase : (k : String) (d : Dict V) → All P (values d) → All P (values (erase k d))
  unfolding erase values
  All-erase k [] h = h
  All-erase k ((j, w) ∷ d) h =
      if_either (λ x. All P (values x)) (same k j) h.1 (h.0, All-erase k d h.1)
