-- ===== src/Utils/Hex/Digits.antt =====
-- What `bytesToHex` of client/src/utils/bytes.ts writes.
use Prim.Native.String.{[], ◌∷◌}
use Prim.Native.Char.{Char, code}
use onlytwo.Base.{
  ℕ, zero, suc, ◌/◌, ◌%◌, ◌*◌, ◌≡◌, refl, arith, Bool, true, ◌&&◌, List, [], ◌∷◌, get_or, length,
  ltb, Bytes,
}
use onlytwo.Protocol.Json.{utf16_length, is_hex, is_hex_char, all_hex}
use onlytwo.Utils.Hex.{bytes_to_hex, hex_digit, digits}

every : (Char → Bool) → List Char → Bool
every f [] = true
every f (x ∷ xs) = f x && every f xs

every-get_or :
    (f : Char → Bool) (xs : List Char) (n : ℕ) (d : Char)
    → every f xs ≡ true
    → f d ≡ true
    → f (get_or xs n d) ≡ true
unfolding every
every-get_or f [] n d all e = e
every-get_or f (x ∷ xs) zero d all e = ground (arith, all)
every-get_or f (x ∷ xs) (suc n) d all e = every-get_or f xs n d (ground (arith, all)) e

is_digit : Char → Bool
is_digit c = is_hex_char c && ltb (code c) 65536

hex_digit-is_digit : (n : ℕ) → is_digit (hex_digit n) ≡ true
unfolding hex_digit is_digit every is_hex_char
hex_digit-is_digit n = every-get_or is_digit digits n "0" refl refl

digit_parts : (n : ℕ) → (is_hex_char (hex_digit n) ≡ true) × (ltb (code (hex_digit n)) 65536 ≡ true)
unfolding is_digit
digit_parts n = let e = hex_digit-is_digit n in ground (arith, e)

length-bytes_to_hex : (bs : Bytes) → utf16_length (bytes_to_hex bs) ≡ 2 * length bs
unfolding utf16_length bytes_to_hex
length-bytes_to_hex [] = omega arith
length-bytes_to_hex (b ∷ bs) =
    let rest = length-bytes_to_hex bs in
    rw ((digit_parts (b / 16 % 16)).1, (digit_parts (b % 16)).1) (omega (arith, rest))

all_hex-bytes_to_hex : (bs : Bytes) → all_hex (bytes_to_hex bs) ≡ true
unfolding all_hex bytes_to_hex
all_hex-bytes_to_hex [] = refl
all_hex-bytes_to_hex (b ∷ bs) =
    rw ((digit_parts (b / 16 % 16)).0, (digit_parts (b % 16)).0) (all_hex-bytes_to_hex bs)

pub is_hex-bytes_to_hex :
    (n : ℕ) (bs : Bytes) → length bs ≡ n → is_hex (2 * n) (bytes_to_hex bs) ≡ true
unfolding is_hex
is_hex-bytes_to_hex n bs e = rw (length-bytes_to_hex bs, all_hex-bytes_to_hex bs, e) (ground arith)
