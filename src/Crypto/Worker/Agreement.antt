-- ===== src/Crypto/Worker/Agreement.antt =====
-- Two workers that establish a session with each other stand on the same two chains.
use Prim.Native.String.{String}
use onlytwo.Base.{
  ◌≡◌, refl, sym, subst, ap, ◌∙◌, Bool, true, false, not, some, [], ◌∷◌, if◌then◌else◌, Bytes,
  arith,
}
use onlytwo.Crypto.Platform.{Platform, IsPlatform}
use onlytwo.Crypto.Worker.{Worker, ok, zero_32}
use onlytwo.Crypto.Worker.Session.{
  compare_bytes, is_eq, is_lt, chain_send_info, chain_recv_info, root_key, derive_session,
  establish_with, establish_session,
}
use onlytwo.Crypto.Worker.Chain.{IsSynced, chain_at}
use onlytwo.Crypto.Worker.Delivery.{IsSending}

compare_flip :
    (a b : Bytes)
    → (is_eq (compare_bytes b a) ≡ is_eq (compare_bytes a b))
      × (is_eq (compare_bytes a b) ≡ false
          → is_lt (compare_bytes b a) ≡ not (is_lt (compare_bytes a b)))
unfolding compare_bytes
compare_flip [] [] = (refl, λ e. cc)
compare_flip [] (y ∷ ys) = (refl, λ e. refl)
compare_flip (x ∷ xs) [] = (refl, λ e. refl)
compare_flip (x ∷ xs) (y ∷ ys) = let rest = compare_flip xs ys in ground (arith, rest)

if-not : {A : Type 0} (b : Bool) (x y : A) → (if not b then x else y) ≡ (if b then y else x)
if-not true x y = refl
if-not false x y = refl

module _ (p : Platform) where
  -- A key pair that the worker generated.
  abbrev pub HasIdentity : Bytes → Worker → Type 0
  HasIdentity a w = w.identity ≡ some (record { private = a; public = p.public_key a })

  -- The chain of the messages from the side with the lower public key, if `lower`.
  unfoldable pub chain_of_side : Bytes → String → Bool → Bytes
  chain_of_side shared profile_hash lower =
      p.hkdf (root_key p shared profile_hash) zero_32
        (if lower then chain_send_info p else chain_recv_info p) 32

  module _ (law : IsPlatform p) (profile_hash : String) (shared : Bytes) where
    establish_lem :
        (w : Worker) (a b : Bytes)
        → HasIdentity a w
        → is_eq (compare_bytes (p.public_key a) (p.public_key b)) ≡ false
        → p.x25519 a (p.public_key b) ≡ some shared
        → establish_session p w (p.public_key b) profile_hash
          ≡ derive_session p w
              (is_lt (compare_bytes (p.public_key a) (p.public_key b)))
              profile_hash
              (some shared)
    unfolding establish_session establish_with
    establish_lem w a b i d x = let n = law.length-public_key b in rw (i, d, x) (ground (arith, n))

    derived_sends :
        (w : Worker) (lower : Bool)
        → IsSending p
            (chain_of_side shared profile_hash lower)
            (derive_session p w lower profile_hash (some shared)).1
    unfolding derive_session chain_at chain_of_side
    derived_sends w lower = record { established = refl; on_chain = refl }

    derived_receives :
        (w : Worker) (lower : Bool)
        → IsSynced p
            (chain_of_side shared profile_hash (not lower))
            (derive_session p w lower profile_hash (some shared)).1
    unfolding derive_session chain_at chain_of_side
    derived_receives w lower = record {
      established = refl;
      on_chain =
          ap (λ (info : Bytes). some (p.hkdf (root_key p shared profile_hash) zero_32 info 32))
            (sym (if-not lower (chain_send_info p) (chain_recv_info p)));
      genuine = tt;
    }

not-not : (b : Bool) → not (not b) ≡ b
not-not true = refl
not-not false = refl

-- Two workers with identities of different public keys that establish a session with each other's
-- public key and the same profile hash both succeed, and then what either of them sends is on the
-- chain that the other one receives on, if their shared secret is not rejected.
pub session_agrees :
    (p : Platform) (law : IsPlatform p) (profile_hash : String) (a b shared : Bytes) (v w : Worker)
    → HasIdentity p a v
    → HasIdentity p b w
    → is_eq (compare_bytes (p.public_key a) (p.public_key b)) ≡ false
    → p.x25519 a (p.public_key b) ≡ some shared
    → let (reply_v, after_v) = establish_session p v (p.public_key b) profile_hash in
      let (reply_w, after_w) = establish_session p w (p.public_key a) profile_hash in
      (reply_v ≡ ok true)
      × (reply_w ≡ ok true)
      × ((k : Bytes) × IsSending p k after_v × IsSynced p k after_w)
      × ((m : Bytes) × IsSending p m after_w × IsSynced p m after_v)
session_agrees p law profile_hash a b shared v w i j d x =
    let lower = is_lt (compare_bytes (p.public_key a) (p.public_key b)) in
    let (same, flipped) = compare_flip (p.public_key a) (p.public_key b) in
    let first = establish_lem p law profile_hash shared v a b i d x in
    let second =
      establish_lem p law profile_hash shared w b a j (same ∙ d) (sym (law.x25519_comm a b) ∙ x) in
    let back =
      subst
        (λ (t : Bool).
          IsSynced p (chain_of_side p shared profile_hash t)
            (derive_session p w (not lower) profile_hash (some shared)).1)
        (not-not lower) (derived_receives p law profile_hash shared w (not lower)) in
    unfold derive_session in
    rw (first, second, flipped d)
      (
        refl,
        refl,
        (
          chain_of_side p shared profile_hash lower,
          derived_sends p law profile_hash shared v lower,
          back,
        ),
        (
          chain_of_side p shared profile_hash (not lower),
          derived_sends p law profile_hash shared w (not lower),
          derived_receives p law profile_hash shared v lower,
        ),
      )
