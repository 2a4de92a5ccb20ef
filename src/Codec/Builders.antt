-- ===== src/Codec/Builders.antt =====
-- What a broker reads from the packets that the builders make. The readers are written from the MQTT
-- specification and are no code of the program.
use ha_eisenberg.Common.{
  ℕ, zero, suc, ◌+◌, ◌*◌, ◌/◌, ◌%◌, ◌<◌, ◌≡◌, ◌++◌, [], ◌∷◌, List, Option, none, some, String,
  Option-cases, Bool, true, false, ◌==◌, if◌then◌else◌, arith, length, take, drop, append_assoc,
  take-length, drop-length, inl, inr,
}
use ha_eisenberg.Utf8
use ha_eisenberg.Utf8.RoundTrip.{decode-encode}
use ha_eisenberg.Codec.{◌>>=◌, pack_short, encode_utf8_string, decode_remaining_length}

-- A two-byte number, and what follows it.
unfoldable pub read_short : List ℕ → Option (ℕ × List ℕ)
read_short (hi ∷ lo ∷ rest) = some (hi * 256 + lo, rest)
read_short _ = none

-- A text behind its two-byte length, and what follows it.
unfoldable pub read_string : List ℕ → Option (String × List ℕ)
read_string bytes = do
  (n, rest) ← read_short bytes
  s ← Utf8.decode (take n rest)
  some (s, drop n rest)

-- The body of a packet: what stands behind its first byte and its length.
unfoldable pub body_of : List ℕ → List ℕ
body_of packet = drop (decode_remaining_length packet 1).1 packet

-- Topic filters, each with its byte for the quality of service.
unfoldable pub read_filters : ℕ → List ℕ → Option (List String)
read_filters zero bytes = none
read_filters (suc fuel) [] = some []
read_filters (suc fuel) (b ∷ bs) = do
  (topic, rest) ← read_string (b ∷ bs)
  others ← read_filters fuel (drop 1 rest)
  some (topic ∷ others)

unfoldable pub read_subscribe : ℕ → List ℕ → Option (ℕ × List String)
read_subscribe fuel packet = do
  (id, rest) ← read_short (body_of packet)
  topics ← read_filters fuel rest
  some (id, topics)

pack_short_inv :
    (n : ℕ) (bs : List ℕ) → pack_short n ≡ some bs → (n < 65536) × (bs ≡ n / 256 ∷ n % 256 ∷ [])
unfolding pack_short
pack_short_inv n bs e = ground arith

pub read_short-pack :
    (n : ℕ) (bs rest : List ℕ) → pack_short n ≡ some bs → read_short (bs ++ rest) ≡ some (n, rest)
unfolding read_short
read_short-pack n bs rest e = rw ((pack_short_inv n bs e).1) (ground arith)

encode_utf8_string_inv :
    (s : String) (bs : List ℕ)
    → encode_utf8_string s ≡ some bs
    → (front : List ℕ) × (pack_short (length (Utf8.encode s)) ≡ some front)
      × (bs ≡ front ++ Utf8.encode s)
unfolding encode_utf8_string
encode_utf8_string_inv s bs e = elim (Option-cases (pack_short (length (Utf8.encode s)))) [
  | inl missing ↦ cc (rw missing at e)
  | inr (front, packed) ↦ (front, packed, cc (rw packed at e))
]

pub read_string-encode :
    (s : String) (bs rest : List ℕ)
    → encode_utf8_string s ≡ some bs
    → read_string (bs ++ rest) ≡ some (s, rest)
unfolding read_string
read_string-encode s bs rest e =
    let (front, packed, same) = encode_utf8_string_inv s bs e in
    let shape : read_short (bs ++ rest) ≡ some (length (Utf8.encode s), Utf8.encode s ++ rest) =
      rw (same, append_assoc)
        (read_short-pack (length (Utf8.encode s)) front (Utf8.encode s ++ rest) packed) in
    rw (shape, take-length (Utf8.encode s) rest, drop-length (Utf8.encode s) rest, decode-encode s)

-- What a CONNECT packet says, by the MQTT specification: its first byte, the protocol with its level, the
-- flag of a clean session, the keepalive, the client id, the user name and the password where their flags
-- are set, and the bytes that are left over.
pub record Connect : Type 0 where
  pub first_byte : ℕ
  pub protocol : String
  pub level : ℕ
  pub clean_session : Bool
  pub keepalive : ℕ
  pub client_id : String
  pub username : Option String
  pub password : Option String
  pub left_over : List ℕ

unfoldable pub read_byte : List ℕ → Option (ℕ × List ℕ)
read_byte [] = none
read_byte (b ∷ rest) = some (b, rest)

-- Whether the bit of that weight is set.
abbrev pub has_flag : ℕ → ℕ → Bool
has_flag flags weight = flags / weight % 2 == 1

-- A text that is there when its flag is set.
unfoldable pub read_if : Bool → List ℕ → Option (Option String × List ℕ)
read_if false bytes = some (none, bytes)
read_if true bytes = do (s, rest) ← read_string bytes; some (some s, rest)

-- A packet with a will (the flag of weight 4) is refused, since its fields are not read here.
unfoldable pub read_connect : List ℕ → Option Connect
read_connect packet = do
  (first, _) ← read_byte packet
  (protocol, rest) ← read_string (body_of packet)
  (level, rest) ← read_byte rest
  (flags, rest) ← read_byte rest
  (keepalive, rest) ← read_short rest
  (client_id, rest) ← read_string rest
  (username, rest) ← read_if (has_flag flags 128) rest
  (password, rest) ← read_if (has_flag flags 64) rest
  if has_flag flags 4
      then none
      else some (record {
        first_byte = first;
        protocol = protocol;
        level = level;
        clean_session = has_flag flags 2;
        keepalive = keepalive;
        client_id = client_id;
        username = username;
        password = password;
        left_over = rest;
      })
