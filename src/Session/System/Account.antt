-- ===== src/Session/System/Account.antt =====
-- What one turn does to the account of handshakes of client/src/session/SessionController.ts.
use onlytwo.Session.System.Frugal.{marked, pending, IsRecent, sent_count, count, flag_le, IsFrugal}
use onlytwo.Base.{
  ℕ, suc, ◌+◌, ◌≤◌, ◌<◌, ◌≡◌, sym, Bool-cases, ==_iff, subst, refl, List, [], ◌∷◌, ◌++◌, ◌==◌,
  if◌then◌else◌, arith, inl, subst, sym, inr,
}
use onlytwo.Session.{Session}
use onlytwo.Session.Calls.{Call, Task, hashing, transport_send, Turn}
use onlytwo.Session.System.{sends}

count-sends :
    (e n : ℕ) (calls : List Call) (log : List ℕ)
    → count e (sends n calls ++ log) ≡ (if n == e then sent_count calls else 0) + count e log
unfolding count sends sent_count
count-sends e n [] log = ground arith
count-sends e n (transport_send env ∷ cs) log = ground (arith, count-sends e n cs log)
count-sends e n (_ ∷ cs) log = count-sends e n cs log

marked_le : (s : Session) → marked s ≤ 2
marked_le s = omega (arith, flag_le s.initial_handshake_sent, flag_le s.reply_handshake_sent)

pub IsRecent-later : (n : ℕ) (task : Task) → IsRecent n task → IsRecent (suc n) task
IsRecent-later n (hashing m next) r = omega (arith, r)
IsRecent-later n _ r = tt

pub recent_free : (n : ℕ) (task : Task) → IsRecent n task → pending (suc n) task ≡ 0
recent_free n (hashing m next) r = ground (arith, r)
recent_free n _ r = refl

-- What is known of the log, the session, one task's handshakes and the other task.
pub record IsLimited (s : Session) (log : List ℕ) (mine other : ℕ) : Type 0 where
  pub within : (e : ℕ) → count e log ≤ 2
  pub unused : (e : ℕ) → s.secure_epoch < e → count e log ≡ 0
  pub account : count s.secure_epoch log + mine + other ≤ marked s

module _ (s : Session) (log : List ℕ) (n : ℕ) (other : Task) (t : Turn) where
  pub turn-IsLimited :
      IsLimited s log n (pending s.secure_epoch other)
      → IsRecent s.secure_epoch other
      → IsFrugal n s t
      → IsLimited t.after
          (sends s.secure_epoch t.calls ++ log)
          (pending t.after.secure_epoch t.task)
          (pending t.after.secure_epoch other)
  turn-IsLimited i r f =
      let cur = s.secure_epoch in
      let two = marked_le s in
      let two_after = marked_le t.after in
      elim f.thrifty [
        | inl (level, spent) ↦ record {
          within = λ e.
              let counted = count-sends e cur t.calls log in
              let old = i.within e in
              let account = i.account in
              elim (Bool-cases (cur == e)) [
                | inl h ↦
                    let same_e : cur ≡ e = (==_iff cur e).0 h in
                    let account_e : count e log + n + pending cur other ≤ marked s =
                      subst (λ (m : ℕ). count m log + n + pending cur other ≤ marked s) same_e
                        account in
                    ground (arith, counted, account_e, spent, two_after)
                | inr h ↦ ground (arith, counted, old, h)
              ];
          unused = λ e l.
              let counted = count-sends e cur t.calls log in
              let old = i.unused e (omega (arith, l, level)) in
              ground (arith, counted, old, l, level);
          account =
              subst
                (λ (m : ℕ).
                  count m (sends cur t.calls ++ log) + pending m t.task + pending m other
                  ≤ marked t.after)
                (sym level)
                (let counted = count-sends cur cur t.calls log in
                  let account = i.account in ground (arith, counted, account, spent));
        }
        | inr (next, few, free) ↦ record {
          within = λ e.
              let counted = count-sends e cur t.calls log in
              let old = i.within e in
              let account = i.account in
              elim (Bool-cases (cur == e)) [
                | inl h ↦
                    let same_e : cur ≡ e = (==_iff cur e).0 h in
                    let account_e : count e log + n + pending cur other ≤ marked s =
                      subst (λ (m : ℕ). count m log + n + pending cur other ≤ marked s) same_e
                        account in
                    ground (arith, counted, account_e, few, two)
                | inr h ↦ ground (arith, counted, old, h)
              ];
          unused = λ e l.
              let counted = count-sends e cur t.calls log in
              let old = i.unused e (omega (arith, l, next)) in
              ground (arith, counted, old, l, next);
          account =
              subst
                (λ (m : ℕ).
                  count m (sends cur t.calls ++ log) + pending m t.task + pending m other
                  ≤ marked t.after)
                (sym next)
                (let counted = count-sends (suc cur) cur t.calls log in
                  let old = i.unused (suc cur) (omega arith) in
                  let others = recent_free cur other r in
                  ground (arith, counted, old, free, others));
        }
      ]
