-- ===== src/Protocol/Envelope/Checks.antt =====
-- A chain of `if (test) throw error` succeeds exactly when no test holds.
use onlytwo.Base.{◌||◌, ℕ, ◌≤◌, ◌≡◌, refl, Bool, true, false, not, ltb, ◌==◌, arith}
use onlytwo.Protocol.Envelope.{FrameError, Result, ok, throw_if, ◌>>◌}

module _ {A : Type 0} {x : A} (c : Bool) (e : FrameError) (r : Result A) where
  pub passed : (throw_if c e >> r) ≡ ok x → (c ≡ false) × (r ≡ ok x)
  passed h = ground arith

  pub pass : c ≡ false → r ≡ ok x → (throw_if c e >> r) ≡ ok x
  pass h k = ground arith

pub ltb-false : (a b : ℕ) → ltb a b ≡ false → b ≤ a
ltb-false a b h = ground arith

pub false-ltb : (a b : ℕ) → b ≤ a → ltb a b ≡ false
false-ltb a b h = ground arith

pub ==-false : (a b : ℕ) → not (a == b) ≡ false → a ≡ b
==-false a b h = ground arith

pub false-== : (a b : ℕ) → a ≡ b → not (a == b) ≡ false
false-== a b h = ground arith

pub not-false : (b : Bool) → not b ≡ false → b ≡ true
not-false true h = refl
not-false false h = cc

pub both-false : (a b m n : ℕ) → (not (a == m) || not (b == n)) ≡ false → (a ≡ m) × (b ≡ n)
both-false a b m n h = ground arith

pub ok-injective : {A : Type 0} {a b : A} → ok a ≡ ok b → a ≡ b
ok-injective h = cc
