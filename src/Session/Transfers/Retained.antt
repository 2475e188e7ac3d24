-- ===== src/Session/Transfers/Retained.antt =====
-- How many finished transfers client/src/session/SessionController.ts keeps.
use Prim.Native.String.{String}
use onlytwo.Base.{
  ◌≤◌, ◌≡◌, refl, sym, ap, ◌∙◌, subst, Bool, true, false, not, ◌&&◌, List, [], ◌∷◌, ◌++◌, length,
  take, drop, arith, Bool-cases, inl, inr, length-take, take-append-drop, length-append,
}
use onlytwo.Base.Dict.{same, same_refl, same_ne}
use text.Mathlib.TextEquality.{eq_iff}
use onlytwo.Session.{Session, TransferView, Stamp, TranscriptItem, trim_transcript}
use onlytwo.Base.{length-drop, leb, ◌-◌, if_known, if_either}
use onlytwo.Session.Transfers.{
  filter, any, is_of, is_retained, retained, remove_transfer_view, remove_all,
  trim_retained_transfers, upserted, upsert_transfer, shows_file, file_item,
}

module _ {A : Type 0} where
  length-filter : (p : A → Bool) (xs : List A) → length (filter p xs) ≤ length xs
  unfolding filter
  length-filter p [] = omega arith
  length-filter p (x ∷ xs) = ground (arith, length-filter p xs)

  filter-append : (p : A → Bool) (xs ys : List A) → filter p (xs ++ ys) ≡ filter p xs ++ filter p ys
  unfolding filter
  filter-append p [] ys = refl
  filter-append p (x ∷ xs) ys = let rest = filter-append p xs ys in ground (arith, rest)

  filter-filter :
      (p q : A → Bool) (xs : List A) → filter p (filter q xs) ≡ filter (λ x. q x && p x) xs
  unfolding filter
  filter-filter p q [] = refl
  filter-filter p q (x ∷ xs) = let rest = filter-filter p q xs in ground (arith, rest)

  filter-all : (xs : List A) → filter (λ x. true) xs ≡ xs
  unfolding filter
  filter-all [] = refl
  filter-all (x ∷ xs) = ap (◌∷◌ x) (filter-all xs)

abbrev minus : String → List String → List String
minus d xs = filter (λ other. not (same other d)) xs

minus_all : List String → List String → List String
minus_all [] xs = xs
minus_all (d ∷ ds) xs = minus_all ds (minus d xs)

minus-cons :
    (d : String) (ds : List String) (q : String → Bool)
    → minus d (filter q (d ∷ ds)) ≡ filter (λ x. q x && not (same x d)) ds
unfolding filter
minus-cons d ds q =
    let fused = filter-filter (λ x. not (same x d)) q ds in
    elim (Bool-cases (q d)) [ inl f ↦ rw (f, same_refl d) fused | inr f ↦ rw f fused ]

-- Of a list that ends in some of `ds`, no more is left than what stands before them.
length-minus_all :
    (ds front : List String) (q : String → Bool)
    → length (minus_all ds (front ++ filter q ds)) ≤ length front
unfolding minus_all filter
length-minus_all [] front q = omega (arith, length-append front [])
length-minus_all (d ∷ ds) front q =
    let differs = λ (x : String). not (same x d) in
    let fewer : String → Bool = λ x. q x && not (same x d) in
    let ending = minus-cons d ds q in
    let less = length-filter differs front in
    let rest = length-minus_all ds (minus d front) fewer in
    rw (filter-append differs front (filter q (d ∷ ds)), ending) (omega (arith, rest, less))

other_id :
    (d o : String) (t : TransferView) → same o d ≡ false → is_of d t ≡ true → is_of o t ≡ false
other_id d o t differ e =
    let at : t.file_id ≡ d = (eq_iff t.file_id d).0 e in
    same_ne t.file_id o (λ h. let again : same o d ≡ true = (eq_iff o d).1 (sym h ∙ at) in cc)

any_kept :
    (d o : String) (ts : List TransferView)
    → same o d ≡ false
    → is_retained (filter (λ t. not (is_of d t)) ts) o ≡ is_retained ts o
unfolding any filter
any_kept d o [] differ = refl
any_kept d o (t ∷ ts) differ =
    let rest = any_kept d o ts differ in
    elim (Bool-cases (is_of d t)) [
      | inl e ↦ let f = other_id d o t differ e in rw (e, f) rest
      | inr e ↦ rw e (ground (arith, rest))
    ]

removed_lem :
    (d : String) (ts : List TransferView) (order : List String)
    → filter (is_retained (filter (λ t. not (is_of d t)) ts)) (minus d order)
      ≡ minus d (filter (is_retained ts) order)
unfolding filter
removed_lem d ts [] = refl
removed_lem d ts (o ∷ os) =
    let rest = removed_lem d ts os in
    elim (Bool-cases (same o d)) [
      | inl e ↦
          rw e (elim (Bool-cases (is_retained ts o)) [ inl f ↦ rw (f, e) rest | inr f ↦ rw f rest ])
      | inr e ↦
          let kept = any_kept d o ts e in
          rw (e, kept)
            (elim (Bool-cases (is_retained ts o)) [
              | inl f ↦ rw (f, e) (ap (◌∷◌ o) rest)
              | inr f ↦ rw f rest
            ])
    ]

retained-remove_all :
    (ds : List String) (s : Session) → retained (remove_all ds s).0 ≡ minus_all ds (retained s)
unfolding remove_all minus_all
retained-remove_all [] s = refl
retained-remove_all (d ∷ ds) s =
    retained-remove_all ds (remove_transfer_view d s)
    ∙ ap (minus_all ds)
        (unfold retained remove_transfer_view in removed_lem d s.view.transfers s.transfer_order)

length-trim_transcript : (items : List TranscriptItem) → length (trim_transcript items) ≤ 500
unfolding trim_transcript
length-trim_transcript items =
    let rest = length-drop (length items - 500) items in
    if_known (λ (xs : List TranscriptItem). length xs ≤ 500) (leb (length items) 500)
      (λ e. ground (arith, e)) (λ e. ground (arith, e, rest))

transcript-remove_all :
    (ds : List String) (s : Session)
    → length (remove_all ds s).0.view.transcript ≤ length s.view.transcript
unfolding remove_all remove_transfer_view
transcript-remove_all [] s = omega arith
transcript-remove_all (d ∷ ds) s =
    let rest = transcript-remove_all ds (remove_transfer_view d s) in
    let less = length-filter (λ i. not (shows_file d i)) s.view.transcript in
    omega (arith, rest, less)

transcript-upserted :
    (stamp : Stamp) (view : TransferView) (s : Session)
    → length s.view.transcript ≤ 500
    → length (upserted stamp view s).view.transcript ≤ 500
unfolding upserted
transcript-upserted stamp view s short =
    if_either (λ (xs : List TranscriptItem). length xs ≤ 500)
      (any (shows_file view.file_id) s.view.transcript) short
      (length-trim_transcript (s.view.transcript ++ file_item stamp view ∷ []))

retained_bounded : (s : Session) → length (retained (trim_retained_transfers s).0) ≤ 30
unfolding trim_retained_transfers
retained_bounded s =
    let kept = retained s in
    let dropped = drop 30 kept in
    let all = retained-remove_all dropped s in
    let whole = take-append-drop 30 kept in
    let front = length-take 30 kept in
    let last = length-minus_all dropped (take 30 kept) (λ x. true) in
    let last_whole : length (minus_all dropped kept) ≤ length (take 30 kept) =
      subst (λ (xs : List String). length (minus_all dropped xs) ≤ length (take 30 kept)) whole
        (subst
          (λ (ys : List String).
            length (minus_all dropped (take 30 kept ++ ys)) ≤ length (take 30 kept))
          (filter-all dropped) last) in
    rw all (omega (arith, last_whole, front))

-- From a transcript of at most 500 items, `upsertTransfer` leaves a transcript of at most 500 items, and
-- at most 30 of the listed transfers are over.
pub upsert_transfer_bounded :
    (stamp : Stamp) (view : TransferView) (s : Session)
    → length s.view.transcript ≤ 500
    → (length (retained (upsert_transfer stamp view s).0) ≤ 30)
      × (length (upsert_transfer stamp view s).0.view.transcript ≤ 500)
unfolding upsert_transfer trim_retained_transfers
upsert_transfer_bounded stamp view s short =
    let dropped = drop 30 (retained (upserted stamp view s)) in
    let less = transcript-remove_all dropped (upserted stamp view s) in
    let first = transcript-upserted stamp view s short in
    let few = retained_bounded (upserted stamp view s) in (few, omega (arith, less, first))
