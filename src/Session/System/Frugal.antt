-- ===== src/Session/System/Frugal.antt =====
-- What a turn of client/src/session/SessionController.ts may send.
use onlytwo.Base.{
  ℕ, suc, ◌+◌, ◌≤◌, ◌≡◌, subst, ap, ◌∙◌, Bool, true, false, ◌⊎◌, inl, inr, List, [], ◌∷◌, ◌==◌,
  if◌then◌else◌, arith, ◌∙◌, subst, ap,
}
use onlytwo.Session.{Session}
use onlytwo.Session.Calls.{Call, Task, Turn, hashing, transport_send, Sending}
use onlytwo.Session.Handshake.{is_stale}

abbrev pub flag : Bool → ℕ
flag true = 1
flag false = 0

-- The handshakes that the session has on its account in this epoch.
abbrev pub marked : Session → ℕ
marked s = flag s.initial_handshake_sent + flag s.reply_handshake_sent

-- The handshakes that a task may still send in an epoch.
abbrev pub pending : ℕ → Task → ℕ
pending epoch (hashing m next) = if m.epoch == epoch then 1 else 0
pending epoch _ = 0

abbrev pub IsRecent : ℕ → Task → Type 0
IsRecent epoch (hashing m next) = m.epoch ≤ epoch
IsRecent epoch _ = Unit

unfoldable pub sent_count : List Call → ℕ
sent_count [] = 0
sent_count (transport_send env ∷ cs) = suc (sent_count cs)
sent_count (c ∷ cs) = sent_count cs

unfoldable pub count : ℕ → List ℕ → ℕ
count e [] = 0
count e (n ∷ ns) = (if n == e then 1 else 0) + count e ns

-- A turn that may send `n` handshakes: it stays in its epoch and accounts for any other, or it begins
-- the next epoch, with nothing under way.
pub record IsFrugal (n : ℕ) (s : Session) (t : Turn) : Type 0 where
  pub recent : IsRecent t.after.secure_epoch t.task
  pub thrifty :
      ((t.after.secure_epoch ≡ s.secure_epoch)
        × (sent_count t.calls + pending s.secure_epoch t.task + marked s ≤ n + marked t.after))
      ⊎ ((t.after.secure_epoch ≡ suc s.secure_epoch)
          × (sent_count t.calls ≤ n)
          × (pending (suc s.secure_epoch) t.task ≡ 0))

pub flag_le : (b : Bool) → flag b ≤ 1
flag_le true = omega arith
flag_le false = omega arith

module _ (s t : Session) where
  -- A turn that leaves the epoch and the two flags, sends nothing and does not hash.
  pub quiet_lem :
      (calls : List Call) (task : Task)
      → t.secure_epoch ≡ s.secure_epoch
      → marked t ≡ marked s
      → sent_count calls ≡ 0
      → IsRecent t.secure_epoch task
      → pending s.secure_epoch task ≡ 0
      → IsFrugal 0 s (record { after = t; calls = calls; task = task })
  quiet_lem calls task e m c r p = record { recent = r; thrifty = inl (e, omega (arith, m, c, p)) }

pub one_call : (c : Call) (cs : List Call) → sent_count (c ∷ cs) ≤ suc (sent_count cs)
unfolding sent_count
one_call (transport_send env) cs = omega arith
one_call _ cs = omega arith

-- A turn from a session with more on its account.
pub rise :
    {s t : Session} {u : Turn}
    → t.secure_epoch ≡ s.secure_epoch
    → marked s ≤ marked t
    → IsFrugal 0 t u
    → IsFrugal 0 s u
rise {s} {t} {u} e m f = elim f.thrifty [
  | inl (level, spent) ↦ record {
    recent = f.recent;
    thrifty = inl (
      level ∙ e,
      subst (λ (n : ℕ). sent_count u.calls + pending n u.task + marked s ≤ 0 + marked u.after) e
          (omega (arith, spent, m)),
    );
  }
  | inr (next, few, free) ↦ record {
    recent = f.recent;
    thrifty = inr (next ∙ ap suc e, few, subst (λ (n : ℕ). pending (suc n) u.task ≡ 0) e free);
  }
]

pub same_epoch : (n : ℕ) → (if n == n then 1 else 0) ≡ suc 0
same_epoch n = ground arith

pub weaken : {s : Session} {u : Turn} (n : ℕ) → IsFrugal 0 s u → IsFrugal n s u
weaken {s} {u} n f = elim f.thrifty [
  | inl (level, spent) ↦ record { recent = f.recent; thrifty = inl (level, omega (arith, spent)) }
  | inr (next, few, free) ↦ record {
    recent = f.recent;
    thrifty = inr (next, omega (arith, few), free);
  }
]

-- One more call.
pub spend :
    {s : Session} {u : Turn} (c : Call)
    → IsFrugal 0 s u
    → IsFrugal 1 s (record u { calls = c ∷ u.calls })
spend {s} {u} c f =
    let one = one_call c u.calls in
    elim f.thrifty [
      | inl (level, spent) ↦ record {
        recent = f.recent;
        thrifty = inl (level, omega (arith, spent, one));
      }
      | inr (next, few, free) ↦ record {
        recent = f.recent;
        thrifty = inr (next, omega (arith, few, one), free);
      }
    ]

pub live_epoch :
    (m : Sending) (s : Session) → is_stale m s ≡ false → (m.epoch == s.secure_epoch) ≡ true
unfolding is_stale
live_epoch m s e = ground (arith, e)
