-- ===== src/Codec.antt =====
-- eisenberg/mqtt_codec.py: MQTT 3.1.1 packets as bytes. Bytes are numbers below 256. What the source
-- raises (struct.error, IndexError, UnicodeDecodeError) is `none`.
pub mod Varint
pub mod Take
pub mod Split
pub mod Builders
pub mod Publish
mod Tests
use mathlib.Core.Logic.{dite}
use mathlib.Core.WellFounded.{Acc}
use native.Mathlib.Decide.{dec_lt}
use ha_eisenberg.Common.{
  ℕ, zero, suc, ◌+◌, ◌-◌, ◌*◌, ◌/◌, ◌%◌, ◌^◌, ◌<◌, ◌≡◌, ◌++◌, [], ◌∷◌, List, Option, none, some,
  String, Bool, true, false, ltb, ◌==◌, if◌then◌else◌, arith, lt_wf, length, take, drop, get_elem?,
}
use ha_eisenberg.Utf8

pub record MqttPublish : Type 0 where
  pub topic : String
  pub payload : List ℕ

infixl 5 ◌>>=◌
abbrev pub ◌>>=◌ {ℓ κ} : {A : Type ℓ} {B : Type κ} → Option A → (A → Option B) → Option B
none >>= f = none
some a >>= f = f a

shifted_lt : (n : ℕ) → 0 < n / 128 → n / 128 < n
shifted_lt n h = omega arith

-- `byte & 0x7F` is `% 128`, `>>= 7` is `/ 128`, and `|= 0x80` of seven bits is `+ 128`.
encode_loop : (n : ℕ) → Acc ◌<◌ n → List ℕ
encode_loop n (Acc.intro _ smaller) =
    dite (dec_lt 0 (n / 128))
      (λ more. (n % 128 + 128) ∷ encode_loop (n / 128) (smaller (n / 128) (shifted_lt n more)))
      (λ _. n % 128 ∷ [])

unfoldable pub encode_remaining_length : ℕ → List ℕ
unfolding encode_loop shifted_lt lt_wf dec_lt
encode_remaining_length n = encode_loop n (lt_wf.apply n)

-- `byte & 0x80`, as a test.
abbrev pub has_more : ℕ → Bool
has_more byte = byte / 128 % 2 == 1

-- The loop of `_decode_remaining_length`, over what `data[idx:]` still holds.
unfoldable pub decode_loop : List ℕ → ℕ → ℕ → ℕ → ℕ × ℕ
decode_loop [] idx remaining multiplier = (remaining, idx)
decode_loop (byte ∷ rest) idx remaining multiplier =
    let next =
      decode_loop rest (idx + 1) (remaining + byte % 128 * multiplier) (multiplier * 128) in
    if has_more byte then next else (remaining + byte % 128 * multiplier, idx + 1)

unfoldable pub decode_remaining_length : List ℕ → ℕ → ℕ × ℕ
unfolding decode_loop
decode_remaining_length bytes start = decode_loop (drop start bytes) start 0 1

-- struct.pack("!H", n)
unfoldable pub pack_short : ℕ → Option (List ℕ)
pack_short n = if ltb n 65536 then some (n / 256 ∷ n % 256 ∷ []) else none

-- struct.unpack("!H", bytes)
unfoldable pub unpack_short : List ℕ → Option ℕ
unpack_short (hi ∷ lo ∷ []) = some (hi * 256 + lo)
unpack_short _ = none

unfoldable pub encode_utf8_string : String → Option (List ℕ)
encode_utf8_string s = do
  prefix ← pack_short (length (Utf8.encode s))
  some (prefix ++ Utf8.encode s)

-- The type byte, the length of what follows, and what follows.
abbrev pub framed : ℕ → List ℕ → List ℕ
framed first body = first ∷ (encode_remaining_length (length body) ++ body)

-- b"\x00\x04MQTT", the level and the flags.
abbrev pub protocol_header : List ℕ
protocol_header = 0x00 ∷ 0x04 ∷ 0x4d ∷ 0x51 ∷ 0x54 ∷ 0x54 ∷ 0x04 ∷ 0xc2 ∷ []

unfoldable pub connect_body : String → String → String → ℕ → Option (List ℕ)
connect_body client_id username password keepalive = do
  alive ← pack_short keepalive
  client ← encode_utf8_string client_id
  user ← encode_utf8_string username
  secret ← encode_utf8_string password
  some (protocol_header ++ (alive ++ (client ++ (user ++ secret))))

unfoldable pub build_connect : String → String → String → ℕ → Option (List ℕ)
unfolding connect_body
build_connect client_id username password keepalive = do
  body ← connect_body client_id username password keepalive
  some (framed 0x10 body)

unfoldable pub topic_filters : List String → Option (List ℕ)
topic_filters [] = some []
topic_filters (topic ∷ topics) = do
  this ← encode_utf8_string topic
  others ← topic_filters topics
  some (this ++ (0x00 ∷ others))

unfoldable pub build_subscribe : ℕ → List String → Option (List ℕ)
build_subscribe packet_id topics = do
  id ← pack_short packet_id
  filters ← topic_filters topics
  some (framed 0x82 (id ++ filters))

unfoldable pub build_pingreq : List ℕ
build_pingreq = 0xc0 ∷ 0x00 ∷ []

unfoldable pub build_disconnect : List ℕ
build_disconnect = 0xe0 ∷ 0x00 ∷ []

-- The loop of `take_packet`, over what `buffer[pos:]` still holds: where the varint ends and its value,
-- or `none` when the bytes run out in the middle of it.
unfoldable pub take_loop : List ℕ → ℕ → ℕ → ℕ → Option (ℕ × ℕ)
take_loop [] pos remaining multiplier = none
take_loop (byte ∷ rest) pos remaining multiplier =
    let total = remaining + byte % 128 * multiplier in
    let next = take_loop rest (pos + 1) total (multiplier * 128) in
    if has_more byte
    then if ltb (128 ^ 3) (multiplier * 128) then some (pos + 1, total) else next
    else some (pos + 1, total)

cut_at : List ℕ → ℕ → Option (List ℕ) × List ℕ
cut_at buffer end =
    if ltb (length buffer) end then (none, buffer) else (some (take end buffer), drop end buffer)

cut_header : List ℕ → Option (ℕ × ℕ) → Option (List ℕ) × List ℕ
unfolding cut_at
cut_header buffer none = (none, buffer)
cut_header buffer (some (pos, remaining)) = cut_at buffer (pos + remaining)

unfoldable pub take_packet : List ℕ → Option (List ℕ) × List ℕ
unfolding take_loop cut_header
take_packet [] = (none, [])
take_packet (first ∷ rest) = cut_header (first ∷ rest) (take_loop rest 1 0 1)

abbrev pub put_first : List ℕ → List (List ℕ) × List ℕ → List (List ℕ) × List ℕ
put_first packet (packets, remainder) = (packet ∷ packets, remainder)

-- The loop of `split_packets`; `packets.append` puts a packet before those of the later rounds.
split_loop : ℕ → List ℕ → List (List ℕ) × List ℕ
split_loop zero rest = ([], rest)
split_loop (suc fuel) rest =
    let (found, left) = take_packet rest in
    elim found [ none ↦ ([], left) | some packet ↦ put_first packet (split_loop fuel left) ]

-- Every packet has a byte at least, so `length buffer` rounds are enough.
unfoldable pub split_packets : List ℕ → List (List ℕ) × List ℕ
unfolding split_loop take_packet
split_packets buffer = split_loop (length buffer) buffer

unfoldable pub parse_packet_type : List ℕ → Option ℕ
parse_packet_type bytes = do first ← get_elem? bytes 0; some (first / 2 ^ 4 % 16)

unfoldable pub parse_connack : List ℕ → Option ℕ
parse_connack bytes = get_elem? bytes 3

unfoldable pub parse_suback : List ℕ → List ℕ
unfolding decode_remaining_length
parse_suback bytes = drop ((decode_remaining_length bytes 1).1 + 2) bytes

-- The payload starts behind the packet identifier, which only QoS 1 and 2 have.
abbrev pub payload_at : ℕ → ℕ → ℕ
payload_at first idx = if ltb 0 (first / 2 % 4) then idx + 2 else idx

unfoldable pub parse_publish : List ℕ → Option MqttPublish
unfolding decode_remaining_length
parse_publish bytes = do
  let idx = (decode_remaining_length bytes 1).1
  topic_len ← unpack_short (take 2 (drop idx bytes))
  topic ← Utf8.decode (take topic_len (drop (idx + 2) bytes))
  first ← get_elem? bytes 0
  some (record { topic = topic; payload = drop (payload_at first (idx + 2 + topic_len)) bytes })
