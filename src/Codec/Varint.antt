-- ===== src/Codec/Varint.antt =====
-- `_encode_remaining_length`, `_decode_remaining_length` and the loop of `take_packet`.
use mathlib.Core.Logic.{dite}
use mathlib.Core.WellFounded.{Acc}
use native.Mathlib.Decide.{dec_lt}
use native.Mathlib.Nat.{div-add-mod, pow-suc}
use ha_eisenberg.Common.{
  ℕ, zero, suc, ◌+◌, ◌*◌, ◌/◌, ◌%◌, ◌^◌, ◌<◌, ◌≤◌, ◌≡◌, ◌++◌, [], ◌∷◌, List, some, refl, ap, arith,
  lt_wf, length, drop-length,
}
use ha_eisenberg.Codec.{
  shifted_lt, encode_loop, encode_remaining_length, decode_loop, decode_remaining_length, take_loop,
}

-- One round, on a decision of the loop's test.
round_small :
    (n : ℕ) (f : (m : ℕ) → m < n → Acc ◌<◌ m) (d : Dec (0 < n / 128))
    → n < 128
    → dite d
        (λ more. (n % 128 + 128) ∷ encode_loop (n / 128) (f (n / 128) (shifted_lt n more)))
        (λ _. n % 128 ∷ [])
      ≡ n ∷ []
round_small n f (yes p) h = absurd (omega arith)
round_small n f (no p) h = ap (λ k. k ∷ []) (omega arith)

round_large :
    (n : ℕ) (f : (m : ℕ) → m < n → Acc ◌<◌ m) (d : Dec (0 < n / 128))
    → 128 ≤ n
    → (w : Acc ◌<◌ (n / 128)) × (dite d
          (λ more. (n % 128 + 128) ∷ encode_loop (n / 128) (f (n / 128) (shifted_lt n more)))
          (λ _. n % 128 ∷ [])
        ≡ (n % 128 + 128) ∷ encode_loop (n / 128) w)
round_large n f (yes p) h = (f (n / 128) (shifted_lt n p), refl)
round_large n f (no p) h = absurd (omega arith)

encode_loop_small : (n : ℕ) (w : Acc ◌<◌ n) → n < 128 → encode_loop n w ≡ n ∷ []
unfolding encode_loop
encode_loop_small n (Acc.intro _ f) h = round_small n f (dec_lt 0 (n / 128)) h

encode_loop_large :
    (n : ℕ) (f : (m : ℕ) → m < n → Acc ◌<◌ m)
    → 128 ≤ n
    → (w : Acc ◌<◌ (n / 128)) × (encode_loop n (Acc.intro n f)
        ≡ (n % 128 + 128) ∷ encode_loop (n / 128) w)
unfolding encode_loop
encode_loop_large n f h = round_large n f (dec_lt 0 (n / 128)) h

groups : (n m : ℕ) → n % 128 * m + n / 128 * (m * 128) ≡ n * m
groups n m = omega (arith, ap (λ (t : ℕ). t * m) (div-add-mod n 128))

last_group :
    (n : ℕ) (rest : List ℕ) (idx total m : ℕ)
    → n < 128
    → decode_loop (n ∷ rest) idx total m ≡ (total + n * m, idx + 1)
unfolding decode_loop
last_group n rest idx total m h = ground arith

inner_group :
    (g : ℕ) (rest : List ℕ) (idx total m : ℕ)
    → g < 128
    → decode_loop ((g + 128) ∷ rest) idx total m
      ≡ decode_loop rest (idx + 1) (total + g * m) (m * 128)
unfolding decode_loop
inner_group g rest idx total m h = ground arith

decode_loop-encode_loop :
    (k n : ℕ) (w : Acc ◌<◌ n) (rest : List ℕ) (idx total m : ℕ)
    → n < k
    → decode_loop (encode_loop n w ++ rest) idx total m
      ≡ (total + n * m, idx + length (encode_loop n w))
decode_loop-encode_loop zero n w rest idx total m b = absurd (omega arith)
decode_loop-encode_loop (suc k) n (Acc.intro _ f) rest idx total m b = elim (dec_lt n 128) [
  | yes h ↦ rw (encode_loop_small n (Acc.intro n f) h) (last_group n rest idx total m h)
  | no h ↦
      let (w, e) = encode_loop_large n f (omega arith) in
      rw e (
        ground (
          arith,
          inner_group (n % 128) (encode_loop (n / 128) w ++ rest) idx total m,
          groups n m,
          decode_loop-encode_loop k (n / 128) w rest (idx + 1) (total + n % 128 * m) (m * 128),
        ))
]

-- Decoding at a place where a length was encoded gives the length, and the place behind it, whatever
-- stands in front and whatever follows.
pub decode-encode_remaining_length :
    (front : List ℕ) (n : ℕ) (rest : List ℕ)
    → decode_remaining_length (front ++ (encode_remaining_length n ++ rest)) (length front)
      ≡ (n, length front + length (encode_remaining_length n))
unfolding decode_remaining_length encode_remaining_length
decode-encode_remaining_length front n rest =
    rw (drop-length front)
      (ground (arith, decode_loop-encode_loop (suc n) n (lt_wf.apply n) rest (length front) 0 1))

-- The same for the loop of `take_packet`, which reads four bytes at most.
take_last :
    (n : ℕ) (rest : List ℕ) (pos total m : ℕ)
    → n < 128
    → take_loop (n ∷ rest) pos total m ≡ some (pos + 1, total + n * m)
unfolding take_loop
take_last n rest pos total m h = ground arith

take_inner :
    (g : ℕ) (rest : List ℕ) (pos total m : ℕ)
    → g < 128
    → m * 128 ≤ 128 ^ 3
    → take_loop ((g + 128) ∷ rest) pos total m ≡ take_loop rest (pos + 1) (total + g * m) (m * 128)
unfolding take_loop
take_inner g rest pos total m h b = ground arith

pow-pos : (k : ℕ) → 1 ≤ 128 ^ k
pow-pos zero = omega arith
pow-pos (suc k) = omega (arith, pow-suc 128 k, pow-pos k)

mul-le : (a q x : ℕ) → 1 ≤ q → a * q ≤ x → a ≤ x
mul-le a zero x p h = absurd (omega arith)
mul-le a (suc q) x p h = omega arith

regroup : (k m : ℕ) → m * 128 ^ suc k ≡ m * 128 * 128 ^ k
regroup k m = rw (pow-suc 128 k) (omega arith)

take_loop-encode_loop :
    (k n : ℕ) (w : Acc ◌<◌ n) (rest : List ℕ) (pos total m : ℕ)
    → n < 128 ^ suc k
    → m * 128 ^ k ≤ 128 ^ 3
    → take_loop (encode_loop n w ++ rest) pos total m
      ≡ some (pos + length (encode_loop n w), total + n * m)
take_loop-encode_loop zero n w rest pos total m b r =
    rw (encode_loop_small n w b) (take_last n rest pos total m b)
take_loop-encode_loop (suc k) n (Acc.intro _ f) rest pos total m b r = elim (dec_lt n 128) [
  | yes h ↦ rw (encode_loop_small n (Acc.intro n f) h) (take_last n rest pos total m h)
  | no h ↦
      let (w, e) = encode_loop_large n f (omega arith) in
      let r' : m * 128 * 128 ^ k ≤ 128 ^ 3 = omega (arith, regroup k m) in
      rw e (
        ground (
          arith,
          take_inner (n % 128) (encode_loop (n / 128) w ++ rest) pos total m (omega arith)
              (mul-le (m * 128) (128 ^ k) (128 ^ 3) (pow-pos k) r'),
          groups n m,
          take_loop-encode_loop k (n / 128) w rest (pos + 1) (total + n % 128 * m) (m * 128)
              (omega (arith, pow-suc 128 (suc k))) r',
        ))
]

-- A length of 28 bits takes four bytes at most.
pub take_loop-encode_remaining_length :
    (n : ℕ) (rest : List ℕ)
    → n < 128 ^ 4
    → take_loop (encode_remaining_length n ++ rest) 1 0 1
      ≡ some (1 + length (encode_remaining_length n), n)
unfolding encode_remaining_length
take_loop-encode_remaining_length n rest h =
    ground (arith, take_loop-encode_loop 3 n (lt_wf.apply n) rest 1 0 1)
