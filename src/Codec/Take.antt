-- ===== src/Codec/Take.antt =====
-- `take_packet`: one packet off the front of a buffer.
use ha_eisenberg.Common.{
  ℕ, ◌+◌, ◌*◌, ◌%◌, ◌^◌, ◌<◌, ◌≤◌, ◌≡◌, ◌≢◌, ◌++◌, [], ◌∷◌, List, Option, none, some, refl, ap, ◌∙◌,
  arith, length, drop, take, le→ltb, append-nil, append_assoc, length-append, length-drop,
  take-append-drop, take-append, drop-append, take-length, drop-length, Option-cases, ◌⊎◌, inl, inr,
}
use ha_eisenberg.Codec.{take_loop, cut_at, take_packet, encode_remaining_length, framed}
use ha_eisenberg.Codec.Varint.{take_loop-encode_remaining_length}

take_loop-append :
    (xs ys : List ℕ) (pos total m : ℕ) (v : ℕ × ℕ)
    → take_loop xs pos total m ≡ some v
    → take_loop (xs ++ ys) pos total m ≡ some v
unfolding take_loop
take_loop-append [] ys pos total m v e = cc
take_loop-append (b ∷ xs) ys pos total m v e =
    ground (arith, take_loop-append xs ys (pos + 1) (total + b % 128 * m) (m * 128) v)

take_loop_pos :
    (xs : List ℕ) (pos total m p r : ℕ)
    → take_loop xs pos total m ≡ some (p, r)
    → (pos < p) × (p ≤ pos + length xs)
unfolding take_loop
take_loop_pos [] pos total m p r e = cc
take_loop_pos (b ∷ xs) pos total m p r e =
    ground (arith, take_loop_pos xs (pos + 1) (total + b % 128 * m) (m * 128) p r)

-- A packet was taken: where its header ends, and that the buffer reaches as far as it says.
record IsTaken (buffer packet left : List ℕ) : Type 0 where
  end : ℕ
  positive : 0 < end
  fits : end ≤ length buffer
  packet_lem : packet ≡ take end buffer
  left_lem : left ≡ drop end buffer
  again :
      (more : List ℕ)
      → take_packet (buffer ++ more) ≡ (some (take end (buffer ++ more)), drop end (buffer ++ more))

cut_at-fits :
    (b : List ℕ) (end : ℕ) → end ≤ length b → cut_at b end ≡ (some (take end b), drop end b)
unfolding cut_at
cut_at-fits b end h = rw (le→ltb (length b) end h)

cut_at_inv :
    (b : List ℕ) (end : ℕ) (packet left : List ℕ)
    → cut_at b end ≡ (some packet, left)
    → (end ≤ length b) × (packet ≡ take end b) × (left ≡ drop end b)
unfolding cut_at
cut_at_inv b end packet left e = ground arith

take_packet-IsTaken :
    (buffer packet left : List ℕ)
    → take_packet buffer ≡ (some packet, left)
    → IsTaken buffer packet left
unfolding take_packet
take_packet-IsTaken [] packet left e = cc
take_packet-IsTaken (first ∷ rest) packet left e = elim (Option-cases (take_loop rest 1 0 1)) [
  | inl missing ↦ cc (rw missing at e)
  | inr ((pos, remaining), found) ↦
      let (fits, same_packet, same_left) =
        cut_at_inv (first ∷ rest) (pos + remaining) packet left (rw found at e) in
      record {
        end = pos + remaining;
        positive = omega (arith, take_loop_pos rest 1 0 1 pos remaining found);
        fits = fits;
        packet_lem = same_packet;
        left_lem = same_left;
        again = λ more. rw (take_loop-append rest more 1 0 1 (pos, remaining) found) (
            cut_at-fits (first ∷ (rest ++ more)) (pos + remaining)
              (omega (arith, length-append rest more)));
      }
]

-- What is taken and what is left make up the buffer, and the packet is not empty.
pub take_packet-lossless :
    (buffer packet left : List ℕ)
    → take_packet buffer ≡ (some packet, left)
    → (packet ++ left ≡ buffer) × (length left < length buffer)
take_packet-lossless buffer packet left e =
    let t = take_packet-IsTaken buffer packet left e in
    (
      rw (t.packet_lem, t.left_lem) (take-append-drop t.end buffer),
      omega (arith, ap length t.left_lem, length-drop t.end buffer, t.positive, t.fits),
    )

-- Bytes that arrive later do not change the packet, and stand behind what was left.
pub take_packet-append :
    (buffer packet left more : List ℕ)
    → take_packet buffer ≡ (some packet, left)
    → take_packet (buffer ++ more) ≡ (some packet, left ++ more)
take_packet-append buffer packet left more e =
    let t = take_packet-IsTaken buffer packet left e in
    t.again more
    ∙ rw (
      take-append t.end buffer more t.fits,
      drop-append t.end buffer more t.fits,
      t.packet_lem,
      t.left_lem,
    )

-- A buffer that holds no whole packet is given back as it is.
pub take_packet-waits : (buffer left : List ℕ) → take_packet buffer ≡ (none, left) → left ≡ buffer
unfolding take_packet cut_at
take_packet-waits [] left e = ground arith
take_packet-waits (first ∷ rest) left e = elim (Option-cases (take_loop rest 1 0 1)) [
  | inl missing ↦ ground (arith, missing)
  | inr ((pos, remaining), found) ↦ ground (arith, found)
]

length-framed :
    (first : ℕ) (body : List ℕ)
    → length (framed first body) ≡ 1 + length (encode_remaining_length (length body)) + length body
length-framed first body = omega (arith, length-append (encode_remaining_length (length body)) body)

-- A packet with a body of less than 2^28 bytes is taken whole off the front, whatever follows it.
pub take_packet-framed :
    (first : ℕ) (body rest : List ℕ)
    → length body < 128 ^ 4
    → take_packet (framed first body ++ rest) ≡ (some (framed first body), rest)
unfolding take_packet
take_packet-framed first body rest h =
    let n = encode_remaining_length (length body) in
    let end = 1 + length n + length body in
    let e : take_loop ((n ++ body) ++ rest) 1 0 1 ≡ some (1 + length n, length body) =
      rw append_assoc (take_loop-encode_remaining_length (length body) (body ++ rest) h) in
    let whole : length (framed first body) ≡ end = length-framed first body in
    rw e (
      cut_at-fits (framed first body ++ rest) end
        (omega (arith, length-append (framed first body) rest, whole))
      ∙ rw (← whole)
          (rw (take-length (framed first body) rest, drop-length (framed first body) rest)))

take_packet_cases_of :
    (buffer left : List ℕ) (found : Option (List ℕ))
    → take_packet buffer ≡ (found, left)
    → (take_packet buffer ≡ (none, buffer))
      ⊎ ((packet : List ℕ) × (left' : List ℕ) × (take_packet buffer ≡ (some packet, left')))
take_packet_cases_of buffer left none e =
    inl (e ∙ ap (λ l. (none, l)) (take_packet-waits buffer left e))
take_packet_cases_of buffer left (some packet) e = inr (packet, left, e)

pub take_packet_cases :
    (buffer : List ℕ)
    → (take_packet buffer ≡ (none, buffer))
      ⊎ ((packet : List ℕ) × (left : List ℕ) × (take_packet buffer ≡ (some packet, left)))
take_packet_cases buffer =
    take_packet_cases_of buffer (take_packet buffer).1 (take_packet buffer).0 refl

eq-nil_of_append : (xs ys : List ℕ) → xs ++ ys ≡ [] → ys ≡ []
eq-nil_of_append [] ys e = e
eq-nil_of_append (x ∷ xs) ys e = cc

-- As long as a byte of it is missing, nothing is taken.
pub take_packet_partial :
    (first : ℕ) (body front back : List ℕ)
    → length body < 128 ^ 4
    → framed first body ≡ front ++ back
    → back ≢ []
    → take_packet front ≡ (none, front)
take_packet_partial first body front back h e b = elim (take_packet_cases front) [
  | inl waits ↦ waits
  | inr (packet, left, taken) ↦
      let later : take_packet (front ++ back) ≡ (some packet, left ++ back) =
        take_packet-append front packet left back taken in
      let whole : take_packet (framed first body) ≡ (some (framed first body), []) =
        rw append-nil at (take_packet-framed first body [] h) in
      absurd (b (eq-nil_of_append left back (cc (later, whole, e))))
]
