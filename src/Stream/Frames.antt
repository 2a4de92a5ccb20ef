-- ===== src/Stream/Frames.antt =====
-- Where the broker's bytes are cut into WebSocket messages makes no difference.
use ha_eisenberg.Common.{
  ℕ, ◌≡◌, ◌++◌, [], ◌∷◌, List, none, some, Bool, true, false, ◌&&◌, refl, sym, ap, ◌∙◌, inl, inr,
  ◌⊎◌, Bool-cases, if◌then◌else◌, append_assoc, append-nil,
}
use ha_eisenberg.Codec.{take_packet, split_packets}
use ha_eisenberg.Codec.Take.{take_packet-append, take_packet_cases}
use ha_eisenberg.Codec.Split.{split_packets-append, split_packets_drains, split_packets-waits}
use ha_eisenberg.Stream.{
  WsMessage, binary, closed, error, other, Reading, got, packet_or, read_packet, is_dispatched,
  Ending, Listening, crashed, drain_then, receive_loop, listen_loop,
}

-- The bytes that arrive before the socket is closed.
abbrev pub received : List WsMessage → List ℕ
received [] = []
received (binary chunk ∷ messages) = chunk ++ received messages
received (closed ∷ messages) = []
received (error ∷ messages) = []
received (other ∷ messages) = received messages

packet_or_inv :
    (buffer : List ℕ) (messages : List WsMessage) (otherwise : Reading) (packet left : List ℕ)
    (later : List WsMessage)
    → packet_or (take_packet buffer) messages otherwise ≡ got packet left later
    → ((take_packet buffer ≡ (some packet, left)) × (messages ≡ later))
      ⊎ (otherwise ≡ got packet left later)
packet_or_inv buffer messages otherwise packet left later e = elim (take_packet_cases buffer) [
  | inl waits ↦ inr (rw waits at e)
  | inr (p, l, taken) ↦ let same = rw taken at e in inl (taken ∙ cc same, cc same)
]

module _ (buffer : List ℕ) (messages : List WsMessage) (packet left : List ℕ)
    (later : List WsMessage) where
  read_at_once :
      take_packet buffer ≡ (some packet, left)
      → messages ≡ later
      → take_packet (buffer ++ received messages) ≡ (some packet, left ++ received later)
  read_at_once taken same =
      take_packet-append buffer packet left (received messages) taken
      ∙ ap (λ m. (some packet, left ++ received m)) same

-- A read of the handshake gives the first packet of all the bytes, and what it leaves in the buffer
-- and in the messages is what follows that packet.
pub read_packet_lem :
    (buffer : List ℕ) (messages : List WsMessage) (packet left : List ℕ) (later : List WsMessage)
    → read_packet buffer messages ≡ got packet left later
    → take_packet (buffer ++ received messages) ≡ (some packet, left ++ received later)
unfolding read_packet
read_packet_lem buffer [] packet left later e =
    elim (packet_or_inv buffer [] _ packet left later e) [
      | inl (taken, same) ↦ read_at_once buffer [] packet left later taken same
      | inr no_packet ↦ cc
    ]
read_packet_lem buffer (binary chunk ∷ messages) packet left later e =
    elim (packet_or_inv buffer (binary chunk ∷ messages) _ packet left later e) [
      | inl (taken, same) ↦
          read_at_once buffer (binary chunk ∷ messages) packet left later taken same
      | inr further ↦
          rw append_assoc at (read_packet_lem (buffer ++ chunk) messages packet left later further)
    ]
read_packet_lem buffer (closed ∷ messages) packet left later e =
    elim (packet_or_inv buffer (closed ∷ messages) _ packet left later e) [
      | inl (taken, same) ↦ read_at_once buffer (closed ∷ messages) packet left later taken same
      | inr no_packet ↦ cc
    ]
read_packet_lem buffer (error ∷ messages) packet left later e =
    elim (packet_or_inv buffer (error ∷ messages) _ packet left later e) [
      | inl (taken, same) ↦ read_at_once buffer (error ∷ messages) packet left later taken same
      | inr no_packet ↦ cc
    ]
read_packet_lem buffer (other ∷ messages) packet left later e =
    elim (packet_or_inv buffer (other ∷ messages) _ packet left later e) [
      | inl (taken, same) ↦ read_at_once buffer (other ∷ messages) packet left later taken same
      | inr further ↦ read_packet_lem buffer messages packet left later further
    ]

-- The packets up to the first that `_dispatch_packet` raises on.
unfoldable pub until_malformed : List (List ℕ) → List (List ℕ)
until_malformed [] = []
until_malformed (packet ∷ packets) =
    let rest = until_malformed packets in if is_dispatched packet then packet ∷ rest else []

-- Draining dispatches these packets, and then those of what follows, unless one of them raises.
dispatched-drain_then :
    (packets later : List (List ℕ)) (remainder : List ℕ) (further : Listening)
    → further.dispatched ≡ until_malformed later
    → (drain_then packets remainder further).dispatched ≡ until_malformed (packets ++ later)
unfolding drain_then until_malformed
dispatched-drain_then [] later remainder further h = h
dispatched-drain_then (packet ∷ packets) later remainder further h =
    elim (Bool-cases (is_dispatched packet)) [
      | inl fine ↦
          rw fine (ap (λ l. packet ∷ l) (dispatched-drain_then packets later remainder further h))
      | inr bad ↦ rw bad
    ]

split_packets_at_end :
    (buffer : List ℕ) → take_packet buffer ≡ (none, buffer) → (split_packets (buffer ++ [])).0 ≡ []
split_packets_at_end buffer w = rw append-nil (ap (λ r. r.0) (split_packets-waits buffer w))

split_packets-chunk :
    (buffer chunk more : List ℕ)
    → (split_packets (buffer ++ chunk)).0
        ++ (split_packets ((split_packets (buffer ++ chunk)).1 ++ more)).0
      ≡ (split_packets (buffer ++ (chunk ++ more))).0
split_packets-chunk buffer chunk more =
    sym (ap (λ r. r.0) (rw append_assoc at (split_packets-append (buffer ++ chunk) more)))

dispatched-receive_loop :
    (idle : Bool) (buffer : List ℕ) (messages : List WsMessage)
    → take_packet buffer ≡ (none, buffer)
    → (receive_loop idle buffer messages).dispatched
      ≡ until_malformed (split_packets (buffer ++ received messages)).0
unfolding receive_loop until_malformed
dispatched-receive_loop idle buffer [] w = rw (split_packets_at_end buffer w)
dispatched-receive_loop idle buffer (binary chunk ∷ messages) w =
    let (packets, remainder) = split_packets (buffer ++ chunk) in
    dispatched-drain_then packets (split_packets (remainder ++ received messages)).0 remainder
      (receive_loop idle remainder messages)
      (dispatched-receive_loop idle remainder messages (split_packets_drains (buffer ++ chunk)).1)
    ∙ ap until_malformed (split_packets-chunk buffer chunk (received messages))
dispatched-receive_loop idle buffer (closed ∷ messages) w = rw (split_packets_at_end buffer w)
dispatched-receive_loop idle buffer (error ∷ messages) w = rw (split_packets_at_end buffer w)
dispatched-receive_loop idle buffer (other ∷ messages) w =
    dispatched-receive_loop idle buffer messages w

-- The listen loop dispatches the packets of all the bytes, those that the handshake left in the buffer
-- first, in order and however they were cut into messages, until one of them is malformed.
pub dispatched-listen_loop :
    (idle : Bool) (buffer : List ℕ) (messages : List WsMessage)
    → (listen_loop idle buffer messages).dispatched
      ≡ until_malformed (split_packets (buffer ++ received messages)).0
unfolding listen_loop
dispatched-listen_loop idle buffer messages =
    let (packets, remainder) = split_packets buffer in
    dispatched-drain_then packets (split_packets (remainder ++ received messages)).0 remainder
      (receive_loop idle remainder messages)
      (dispatched-receive_loop idle remainder messages (split_packets_drains buffer).1)
    ∙ ap until_malformed (sym (ap (λ r. r.0) (split_packets-append buffer (received messages))))

abbrev pub all_dispatched : List (List ℕ) → Bool
all_dispatched [] = true
all_dispatched (packet ∷ packets) = is_dispatched packet && all_dispatched packets

abbrev HasCrashed : Bool → Ending → Type 0
HasCrashed true ending = Unit
HasCrashed false ending = ending ≡ crashed

crashed-drain_then :
    (packets later : List (List ℕ)) (remainder : List ℕ) (further : Listening)
    → HasCrashed (all_dispatched later) further.ending
    → HasCrashed (all_dispatched (packets ++ later)) (drain_then packets remainder further).ending
unfolding drain_then
crashed-drain_then [] later remainder further h = h
crashed-drain_then (packet ∷ packets) later remainder further h =
    elim (Bool-cases (is_dispatched packet)) [
      | inl fine ↦ rw fine (crashed-drain_then packets later remainder further h)
      | inr bad ↦ rw bad refl
    ]

crashed-receive_loop :
    (idle : Bool) (buffer : List ℕ) (messages : List WsMessage)
    → take_packet buffer ≡ (none, buffer)
    → HasCrashed
        (all_dispatched (split_packets (buffer ++ received messages)).0)
        (receive_loop idle buffer messages).ending
unfolding receive_loop
crashed-receive_loop idle buffer [] w = rw (split_packets_at_end buffer w) tt
crashed-receive_loop idle buffer (binary chunk ∷ messages) w =
    let (packets, remainder) = split_packets (buffer ++ chunk) in
    rw (split_packets-chunk buffer chunk (received messages)) at (
      crashed-drain_then packets (split_packets (remainder ++ received messages)).0 remainder
        (receive_loop idle remainder messages)
        (crashed-receive_loop idle remainder messages (split_packets_drains (buffer ++ chunk)).1))
crashed-receive_loop idle buffer (closed ∷ messages) w = rw (split_packets_at_end buffer w) tt
crashed-receive_loop idle buffer (error ∷ messages) w = rw (split_packets_at_end buffer w) tt
crashed-receive_loop idle buffer (other ∷ messages) w = crashed-receive_loop idle buffer messages w

HasCrashed-false : (b : Bool) (ending : Ending) → b ≡ false → HasCrashed b ending → ending ≡ crashed
HasCrashed-false true ending e h = cc
HasCrashed-false false ending e h = h

-- Where one of the packets is malformed, the listen task ends by the exception: the loop does not
-- reach the call of `on_disconnect`, even if the socket is closed later.
pub crashed-listen_loop :
    (idle : Bool) (buffer : List ℕ) (messages : List WsMessage)
    → all_dispatched (split_packets (buffer ++ received messages)).0 ≡ false
    → (listen_loop idle buffer messages).ending ≡ crashed
unfolding listen_loop
crashed-listen_loop idle buffer messages bad =
    let (packets, remainder) = split_packets buffer in
    let later = (split_packets (remainder ++ received messages)).0 in
    let whole : (split_packets (buffer ++ received messages)).0 ≡ packets ++ later =
      ap (λ r. r.0) (split_packets-append buffer (received messages)) in
    HasCrashed-false (all_dispatched (packets ++ later)) _ (rw whole at bad) (
      crashed-drain_then packets later remainder (receive_loop idle remainder messages)
        (crashed-receive_loop idle remainder messages (split_packets_drains buffer).1))
