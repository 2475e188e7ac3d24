-- ===== src/Protocol/Json.antt =====
-- client/src/utils/safeJson.ts, on the values of `JSON.parse`. A number is a whole one or any other
-- (negative, fractional), which no reader here tells apart. `none` is a thrown error. An object's
-- fields are those after parsing, where a key stands once.
use Prim.Native.String.{String, [], ◌∷◌}
use Prim.Native.Char.{Char, code}
use text.Mathlib.Text
use onlytwo.Base.{
  ℕ, ◌+◌, Bool, true, false, ◌||◌, ◌&&◌, Option, none, some, ltb, leb, ◌==◌, if◌then◌else◌,
}

pub data Number : Type 0 where
  whole : ℕ → Number
  other : Number

mutual
  pub data Json : Type 0 where
    null : Json
    boolean : Bool → Json
    number : Number → Json
    string : String → Json
    array : Items → Json
    object : Fields → Json

  pub data Items : Type 0 where
    no_items : Items
    item : Json → Items → Items

  pub data Fields : Type 0 where
    no_fields : Fields
    field : String → Json → Fields → Fields

infixl 20 ◌>>=◌
abbrev pub ◌>>=◌ : {A B : Type 0} → Option A → (A → Option B) → Option B
none >>= f = none
some a >>= f = f a

-- `obj[key]`
unfoldable pub get : String → Fields → Option Json
get key no_fields = none
get key (field k v rest) = if Text.◌==◌ key k then some v else get key rest

-- `value.length`, in UTF-16 units.
unfoldable pub utf16_length : String → ℕ
utf16_length [] = 0
utf16_length (c ∷ s) = (if ltb (code c) 65536 then 1 else 2) + utf16_length s

unfoldable pub is_hex_char : Char → Bool
is_hex_char c = (leb 48 (code c) && leb (code c) 57) || (leb 97 (code c) && leb (code c) 102)

unfoldable pub all_hex : String → Bool
unfolding is_hex_char
all_hex [] = true
all_hex (c ∷ s) = is_hex_char c && all_hex s

-- `/^[a-f0-9]{n}$/.test(value)`
unfoldable pub is_hex : ℕ → String → Bool
unfolding all_hex
is_hex n s = utf16_length s == n && all_hex s

abbrev pub max_safe_integer : ℕ
max_safe_integer = 9007199254740991

-- The value of a `typeof value === "string"` test.
abbrev pub as_string : Option Json → Option String
as_string (some (string s)) = some s
as_string _ = none

unfoldable pub require_string : Fields → String → Option String
require_string obj key = as_string (get key obj)

abbrev pub or_else : {A : Type 0} → Option A → A → A
or_else (some a) b = a
or_else none b = b

unfoldable pub optional_string : Fields → String → String → String
optional_string obj key fallback = or_else (as_string (get key obj)) fallback

-- The value of a finite number, if it is a whole one.
abbrev pub as_whole : Option Json → Option ℕ
as_whole (some (number (whole n))) = some n
as_whole _ = none

-- `Number.isSafeInteger(value) && value >= min`
abbrev pub in_range : ℕ → ℕ → Bool
in_range min n = leb n max_safe_integer && leb min n

abbrev pub keep : {A : Type 0} → Bool → A → Option A
keep true a = some a
keep false a = none

unfoldable pub require_integer : Fields → String → ℕ → Option ℕ
require_integer obj key min = do n ← as_whole (get key obj); keep (in_range min n) n
