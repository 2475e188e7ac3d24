-- ===== src/Utils/Hex.antt =====
-- `bytesToHex` of client/src/utils/bytes.ts, the order of texts (`<`), and `sort()` by it. The texts
-- here are ASCII, where the order of code points is the one of UTF-16 units.
pub mod Digits
use Prim.Native.String.{String, [], ◌∷◌}
use text.Mathlib.TextEquality.{codes_equal}
use Prim.Native.Char.{Char, code}
use Prim.Native.Nat.{Ordering, compare}
use onlytwo.Base.{
  ℕ, ◌/◌, ◌%◌, ◌≡◌, refl, sym, arith, Bool-cases, inl, inr, Bool, true, false, List, [], ◌∷◌,
  get_or, if◌then◌else◌, Bytes,
}

abbrev digits : List Char
digits =
    "0" ∷ "1" ∷ "2" ∷ "3" ∷ "4" ∷ "5" ∷ "6" ∷ "7" ∷ "8" ∷ "9" ∷ "a" ∷ "b" ∷ "c" ∷ "d" ∷ "e" ∷ "f"
    ∷ []

hex_digit : ℕ → Char
hex_digit n = get_or digits n "0"

unfoldable pub bytes_to_hex : Bytes → String
unfolding hex_digit
bytes_to_hex [] = ""
bytes_to_hex (b ∷ bs) = hex_digit (b / 16 % 16) ∷ (hex_digit (b % 16) ∷ bytes_to_hex bs)

-- `a < b`
unfoldable pub text_less : String → String → Bool
text_less [] [] = false
text_less [] (d ∷ t) = true
text_less (c ∷ s) [] = false
text_less (c ∷ s) (d ∷ t) = elim (compare (code c) (code d)) [
  | Ordering.lt ↦ true
  | Ordering.eq ↦ text_less s t
  | Ordering.gt ↦ false
]

unfoldable pub insert_text : String → List String → List String
insert_text s [] = s ∷ []
insert_text s (t ∷ ts) = if text_less t s then t ∷ insert_text s ts else s ∷ t ∷ ts

unfoldable pub sort_texts : List String → List String
sort_texts [] = []
sort_texts (s ∷ ts) = insert_text s (sort_texts ts)

-- A pair of texts in their order.
unfoldable pub ordered : String → String → String × String
ordered a b = if text_less a b then (a, b) else (b, a)

less_asymmetric : (a b : String) → text_less a b ≡ true → text_less b a ≡ false
unfolding text_less
less_asymmetric [] [] e = cc
less_asymmetric [] (d ∷ t) e = refl
less_asymmetric (c ∷ s) [] e = cc
less_asymmetric (c ∷ s) (d ∷ t) e = let rest = less_asymmetric s t in ground (arith, e, rest)

less_total : (a b : String) → text_less a b ≡ false → text_less b a ≡ false → a ≡ b
unfolding text_less
less_total [] [] e f = refl
less_total [] (d ∷ t) e f = cc
less_total (c ∷ s) [] e f = cc
less_total (c ∷ s) (d ∷ t) e f =
    let rest : s ≡ t = less_total s t (ground (arith, e, f)) (ground (arith, e, f)) in
    let first : c ≡ d = codes_equal c d (ground (arith, e, f)) in cc

-- The order of the two does not matter.
pub ordered_comm : (a b : String) → ordered a b ≡ ordered b a
unfolding ordered
ordered_comm a b = elim (Bool-cases (text_less a b)) [
  | inl e ↦ let f = less_asymmetric a b e in rw (e, f) refl
  | inr e ↦ elim (Bool-cases (text_less b a)) [
    | inl f ↦ rw (e, f) refl
    | inr f ↦ let same = less_total a b e f in rw (e, f) (λ i. (sym same i, same i))
  ]
]
