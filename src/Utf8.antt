-- ===== src/Utf8.antt =====
-- `str.encode("utf-8")` and `bytes.decode("utf-8")` of Python, which eisenberg/mqtt_codec.py uses.
-- Bytes are numbers; a decode that Python refuses with UnicodeDecodeError is `none`.
pub mod RoundTrip
use Prim.Native.Nat.{Ordering, compare}
use Prim.Native.Char.{Char, char, code, IsLt, IsScalar}
use Prim.Native.String
use mathlib.Core.Option
use ha_eisenberg.Common.{
  ℕ, zero, suc, ◌+◌, ◌-◌, ◌*◌, ◌/◌, ◌%◌, ◌≡◌, refl, ap, ◌++◌, [], ◌∷◌, List, Option, none, some,
  String, ltb, if◌then◌else◌,
}

-- The clauses of `IsScalar` over the three comparisons.
abbrev Both : Ordering → Ordering → Type 0
Both Ordering.lt o = IsLt o
Both Ordering.eq _ = ⊥
Both Ordering.gt _ = ⊥

abbrev Scalar : Ordering → Ordering → Ordering → Type 0
Scalar Ordering.lt _ _ = Unit
Scalar Ordering.eq o p = Both o p
Scalar Ordering.gt o p = Both o p

is_lt? : (o : Ordering) → Option (IsLt o)
is_lt? Ordering.lt = some tt
is_lt? Ordering.eq = none
is_lt? Ordering.gt = none

unfoldable pub both? : (o p : Ordering) → Option (Both o p)
unfolding is_lt?
both? Ordering.lt p = is_lt? p
both? Ordering.eq p = none
both? Ordering.gt p = none

unfoldable pub scalar? : (o p q : Ordering) → Option (Scalar o p q)
unfolding both?
scalar? Ordering.lt p q = some tt
scalar? Ordering.eq p q = both? p q
scalar? Ordering.gt p q = both? p q

-- The character with a code point, if there is one.
unfoldable pub chr : ℕ → Option Char
unfolding scalar?
chr n = Option.map (char n) (scalar? (compare n 55296) (compare 57343 n) (compare n 1114112))

-- One character in one to four bytes.
unfoldable pub encode_code : ℕ → List ℕ
encode_code n =
    if ltb n 0x80
    then n ∷ []
    else if ltb n 0x800
    then (0xc0 + n / 64) ∷ (0x80 + n % 64) ∷ []
    else if ltb n 0x10000
    then (0xe0 + n / 4096) ∷ (0x80 + n / 64 % 64) ∷ (0x80 + n % 64) ∷ []
    else (0xf0 + n / 262144) ∷ (0x80 + n / 4096 % 64) ∷ (0x80 + n / 64 % 64) ∷ (0x80 + n % 64) ∷ []

unfoldable pub encode : String → List ℕ
encode String.[] = []
encode (String.◌∷◌ c s) = encode_code (code c) ++ encode s

-- What a byte does to the decoder: it ends a character, it opens or continues one, or it is refused.
-- A character that is open carries the bytes to come, its bits so far and the least code that its
-- length may hold (a shorter form would do for a smaller one).
pub data Reading : Type 0 where
  finished : ℕ → Reading
  open_char : ℕ → ℕ → ℕ → Reading
  refused : Reading

unfoldable pub first_byte : ℕ → Reading
first_byte b =
    if ltb b 0x80
    then finished b
    else if ltb b 0xc0
    then refused
    else if ltb b 0xe0
    then open_char 0 (b - 0xc0) 0x80
    else if ltb b 0xf0
    then open_char 1 (b - 0xe0) 0x800
    else if ltb b 0xf8
    then open_char 2 (b - 0xf0) 0x10000
    else refused

unfoldable pub last_byte : ℕ → ℕ → ℕ → Reading
last_byte bits least b =
    if ltb b 0x80
    then refused
    else if ltb b 0xc0
    then if ltb (bits * 64 + (b - 0x80)) least then refused else finished (bits * 64 + (b - 0x80))
    else refused

unfoldable pub inner_byte : ℕ → ℕ → ℕ → ℕ → Reading
inner_byte more bits least b =
    if ltb b 0x80
    then refused
    else if ltb b 0xc0
    then open_char more (bits * 64 + (b - 0x80)) least
    else refused

unfoldable pub read_byte : Option (ℕ × ℕ × ℕ) → ℕ → Reading
unfolding first_byte last_byte inner_byte
read_byte none b = first_byte b
read_byte (some (zero, bits, least)) b = last_byte bits least b
read_byte (some (suc more, bits, least)) b = inner_byte more bits least b

abbrev pub prepend : Option Char → Option String → Option String
prepend none s = none
prepend (some c) none = none
prepend (some c) (some s) = some (String.◌∷◌ c s)

-- The state is the character that is open, if one is.
unfoldable pub decode_from : Option (ℕ × ℕ × ℕ) → List ℕ → Option String
unfolding read_byte chr
decode_from none [] = some String.[]
decode_from (some open_bits) [] = none
decode_from state (b ∷ bs) = elim (read_byte state b) [
  | finished n ↦ prepend (chr n) (decode_from none bs)
  | open_char more bits least ↦ decode_from (some (more, bits, least)) bs
  | refused ↦ none
]

unfoldable pub decode : List ℕ → Option String
unfolding decode_from
decode bs = decode_from none bs
