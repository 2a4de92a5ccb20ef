-- ===== src/Codec/Split.antt =====
-- `split_packets`: every packet of a buffer, and what arrives in pieces.
use ha_eisenberg.Common.{
  ℕ, zero, suc, ◌^◌, ◌<◌, ◌≤◌, ◌≡◌, ◌++◌, [], ◌∷◌, List, none, some, refl, ap, sym, ◌∙◌, arith, All,
  length, append_assoc, inl, inr,
}
use ha_eisenberg.Codec.{take_packet, split_loop, put_first, split_packets, framed}
use ha_eisenberg.Codec.Take.{
  take_packet-lossless, take_packet-append, take_packet-framed, take_packet_cases,
}

split_loop-waits : (fuel : ℕ) (b : List ℕ) → take_packet b ≡ (none, b) → split_loop fuel b ≡ ([], b)
unfolding split_loop
split_loop-waits zero b e = refl
split_loop-waits (suc fuel) b e = ground arith

split_loop-takes :
    (fuel : ℕ) (b packet left : List ℕ)
    → take_packet b ≡ (some packet, left)
    → split_loop (suc fuel) b ≡ put_first packet (split_loop fuel left)
unfolding split_loop
split_loop-takes fuel b packet left e = ground arith

-- As much fuel as bytes is enough: more changes nothing.
split_loop_enough :
    (f g : ℕ) (b : List ℕ) → length b ≤ f → length b ≤ g → split_loop f b ≡ split_loop g b
split_loop_enough zero g b hf hg = elim (take_packet_cases b) [
  | inl waits ↦ split_loop-waits zero b waits ∙ sym (split_loop-waits g b waits)
  | inr (packet, left, taken) ↦ absurd (omega (arith, take_packet-lossless b packet left taken))
]
split_loop_enough (suc f) zero b hf hg = elim (take_packet_cases b) [
  | inl waits ↦ split_loop-waits (suc f) b waits ∙ sym (split_loop-waits zero b waits)
  | inr (packet, left, taken) ↦ absurd (omega (arith, take_packet-lossless b packet left taken))
]
split_loop_enough (suc f) (suc g) b hf hg = elim (take_packet_cases b) [
  | inl waits ↦ split_loop-waits (suc f) b waits ∙ sym (split_loop-waits (suc g) b waits)
  | inr (packet, left, taken) ↦
      let shorter = (take_packet-lossless b packet left taken).1 in
      split_loop-takes f b packet left taken
      ∙ ap (put_first packet) (split_loop_enough f g left (omega arith) (omega arith))
      ∙ sym (split_loop-takes g b packet left taken)
]

pub split_packets-waits : (b : List ℕ) → take_packet b ≡ (none, b) → split_packets b ≡ ([], b)
unfolding split_packets
split_packets-waits b e = split_loop-waits (length b) b e

pub split_packets-takes :
    (b packet left : List ℕ)
    → take_packet b ≡ (some packet, left)
    → split_packets b ≡ put_first packet (split_packets left)
unfolding split_packets
split_packets-takes b packet left e =
    let shorter = (take_packet-lossless b packet left e).1 in
    split_loop_enough (length b) (suc (length b)) b (omega arith) (omega arith)
    ∙ split_loop-takes (length b) b packet left e
    ∙ ap (put_first packet)
        (split_loop_enough (length b) (length left) left (omega arith) (omega arith))

abbrev pub join : List (List ℕ) → List ℕ
join [] = []
join (p ∷ ps) = p ++ join ps

abbrev IsDrained : List ℕ → List (List ℕ) × List ℕ → Type 0
IsDrained b (packets, remainder) =
    (join packets ++ remainder ≡ b) × (take_packet remainder ≡ (none, remainder))

IsDrained-put_first :
    (b packet left : List ℕ) (r : List (List ℕ) × List ℕ)
    → packet ++ left ≡ b
    → IsDrained left r
    → IsDrained b (put_first packet r)
IsDrained-put_first b packet left (packets, remainder) e (same, waits) =
    (append_assoc packet (join packets) remainder ∙ rw (same, e), waits)

-- Induction on the packets that a buffer starts with.
module _ {ℓ} (P : List ℕ → Type ℓ) (waits : (b : List ℕ) → take_packet b ≡ (none, b) → P b)
    (takes : (b packet left : List ℕ) → take_packet b ≡ (some packet, left) → P left → P b) where
  packet_induction_below : (k : ℕ) (b : List ℕ) → length b ≤ k → P b
  packet_induction_below zero b h = elim (take_packet_cases b) [
    | inl w ↦ waits b w
    | inr (packet, left, t) ↦ absurd (omega (arith, take_packet-lossless b packet left t))
  ]
  packet_induction_below (suc k) b h = elim (take_packet_cases b) [
    | inl w ↦ waits b w
    | inr (packet, left, t) ↦
        let shorter = (take_packet-lossless b packet left t).1 in
        takes b packet left t (packet_induction_below k left (omega arith))
  ]

  packet_induction : (b : List ℕ) → P b
  packet_induction b = packet_induction_below (length b) b (omega arith)

-- Nothing is lost: the packets in order and the remainder make up the buffer; and nothing more can
-- be taken from the remainder.
pub split_packets_drains :
    (buffer : List ℕ)
    → (join (split_packets buffer).0 ++ (split_packets buffer).1 ≡ buffer)
      × (take_packet (split_packets buffer).1 ≡ (none, (split_packets buffer).1))
split_packets_drains =
    packet_induction (λ b. IsDrained b (split_packets b))
      (λ b w. rw (split_packets-waits b w) (refl, w))
      (λ b packet left t ih. rw (split_packets-takes b packet left t) (
        IsDrained-put_first b packet left (split_packets left)
          (take_packet-lossless b packet left t).0 ih))

-- The packets so far, and then those of what was left over with what has arrived since.
abbrev pub then_split : List (List ℕ) × List ℕ → List ℕ → List (List ℕ) × List ℕ
then_split (packets, remainder) more =
    let (later, remainder') = split_packets (remainder ++ more) in (packets ++ later, remainder')

-- Where the buffer is cut into frames makes no difference: splitting what has arrived, and later what
-- was left over with what arrived since, gives the packets of the whole.
pub split_packets-append :
    (buffer more : List ℕ) → split_packets (buffer ++ more) ≡ then_split (split_packets buffer) more
split_packets-append buffer more =
    packet_induction (λ b. split_packets (b ++ more) ≡ then_split (split_packets b) more)
      (λ b w. rw (split_packets-waits b w))
      (λ b packet left t ih.
        split_packets-takes (b ++ more) packet (left ++ more)
          (take_packet-append b packet left more t)
        ∙ rw (ih, split_packets-takes b packet left t))
      buffer

-- A packet as the builders make it: a type byte and a body of less than 2^28 bytes.
abbrev pub frames : List (ℕ × List ℕ) → List (List ℕ)
frames [] = []
frames ((first, body) ∷ more) = framed first body ∷ frames more

-- Packets that were sent one after the other are split as they were sent.
pub split_packets-frames :
    (sent : List (ℕ × List ℕ))
    → All (λ p. length p.1 < 128 ^ 4) sent
    → split_packets (join (frames sent)) ≡ (frames sent, [])
split_packets-frames [] h = split_packets-waits [] (unfold take_packet in refl)
split_packets-frames ((first, body) ∷ more) (h, hs) =
    split_packets-takes _ (framed first body) (join (frames more))
      (take_packet-framed first body (join (frames more)) h)
    ∙ ap (put_first (framed first body)) (split_packets-frames more hs)
