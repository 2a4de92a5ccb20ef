-- ===== src/Utf8/RoundTrip.antt =====
-- Decoding what was encoded gives the text back.
use Prim.Native.Nat.{Ordering, compare}
use Prim.Native.Char.{Char, char, code, IsLt}
use mathlib.Core.Option
use ha_eisenberg.Common.{ℕ, ◌<◌, ◌≡◌, refl, ap, ◌∙◌, ◌++◌, List, none, some, String, arith, All}
use ha_eisenberg.Utf8.{
  Both, Scalar, both?, scalar?, chr, encode_code, encode, prepend, decode_from, decode,
}

both?-self : (o p : Ordering) (h : Both o p) → both? o p ≡ some h
unfolding both?
both?-self Ordering.lt Ordering.lt h = refl
both?-self Ordering.lt Ordering.eq h = absurd h
both?-self Ordering.lt Ordering.gt h = absurd h
both?-self Ordering.eq p h = absurd h
both?-self Ordering.gt p h = absurd h

scalar?-self : (o p q : Ordering) (h : Scalar o p q) → scalar? o p q ≡ some h
unfolding scalar?
scalar?-self Ordering.lt p q h = refl
scalar?-self Ordering.eq p q h = both?-self p q h
scalar?-self Ordering.gt p q h = both?-self p q h

chr-code : (c : Char) → chr (code c) ≡ some c
unfolding chr
chr-code (char n h) = ap (Option.map (char n)) (scalar?-self _ _ _ h)

lt_of_IsLt : (n m : ℕ) (o : Ordering) → compare n m ≡ o → IsLt o → n < m
lt_of_IsLt n m Ordering.lt e h = ground arith
lt_of_IsLt n m Ordering.eq e h = absurd h
lt_of_IsLt n m Ordering.gt e h = absurd h

code_bound :
    (n : ℕ) (o p q : Ordering)
    → compare n 55296 ≡ o
    → compare n 1114112 ≡ q
    → Scalar o p q
    → n < 1114112
code_bound n Ordering.lt p q e f h = ground arith
code_bound n Ordering.eq Ordering.lt q e f h = lt_of_IsLt n 1114112 q f h
code_bound n Ordering.eq Ordering.eq q e f h = absurd h
code_bound n Ordering.eq Ordering.gt q e f h = absurd h
code_bound n Ordering.gt Ordering.lt q e f h = lt_of_IsLt n 1114112 q f h
code_bound n Ordering.gt Ordering.eq q e f h = absurd h
code_bound n Ordering.gt Ordering.gt q e f h = absurd h

-- A code point takes 21 bits.
code_lt : (c : Char) → code c < 1114112
code_lt (char n h) = code_bound n _ _ _ refl refl h

decode_from-encode_code :
    (n : ℕ) (bs : List ℕ)
    → n < 1114112
    → decode_from none (encode_code n ++ bs) ≡ prepend (chr n) (decode_from none bs)
unfolding decode_from encode_code
decode_from-encode_code n bs h = ground arith

decode_from-encode : (s : String) → decode_from none (encode s) ≡ some s
unfolding encode
decode_from-encode String.[] = unfold decode_from in refl
decode_from-encode (String.◌∷◌ c s) =
    decode_from-encode_code (code c) (encode s) (code_lt c) ∙ rw (chr-code c, decode_from-encode s)

-- What `encode` wrote, `decode` reads.
pub decode-encode : (s : String) → decode (encode s) ≡ some s
unfolding decode
decode-encode s = decode_from-encode s

encode_code-bytes : (n : ℕ) → n < 1114112 → All (λ b. b < 256) (encode_code n)
unfolding encode_code
encode_code-bytes n h = ground arith
