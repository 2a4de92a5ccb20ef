-- ===== src/Codec/Publish.antt =====
-- `parse_publish`, `parse_suback` and `parse_packet_type` on packets laid out as MQTT 3.1.1 says.
use ha_eisenberg.Common.{
  ℕ, zero, suc, ◌+◌, ◌*◌, ◌/◌, ◌%◌, ◌<◌, ◌≤◌, ◌≡◌, ◌++◌, [], ◌∷◌, List, some, String, refl, ap, ◌∙◌,
  arith, length, take, drop, take-length, drop-length, drop-add, get_elem?,
}
use ha_eisenberg.Utf8
use ha_eisenberg.Utf8.RoundTrip.{decode-encode}
use ha_eisenberg.Codec.{
  unpack_short, framed, payload_at, parse_publish, parse_suback, decode_remaining_length,
  encode_remaining_length,
}
use ha_eisenberg.Codec.Varint.{decode-encode_remaining_length}

-- The first byte of a PUBLISH packet: its type, the duplicate flag, the quality of service, the retain flag.
abbrev pub publish_byte : ℕ → ℕ → ℕ → ℕ
publish_byte dup qos retain = 3 * 16 + dup * 8 + qos * 2 + retain

-- A packet identifier is there at the qualities 1 and 2 alone.
abbrev pub identifier : ℕ → ℕ → ℕ → List ℕ
identifier zero hi lo = []
identifier (suc qos) hi lo = hi ∷ lo ∷ []

abbrev pub publish_body : ℕ → ℕ → ℕ → String → List ℕ → List ℕ
publish_body qos hi lo topic payload =
    let name = Utf8.encode topic in
    (length name / 256) ∷ (length name % 256) ∷ (name ++ (identifier qos hi lo ++ payload))

parse_publish_parts :
    (packet : List ℕ) (idx topic_len first : ℕ) (topic : String)
    → (decode_remaining_length packet 1).1 ≡ idx
    → unpack_short (take 2 (drop idx packet)) ≡ some topic_len
    → Utf8.decode (take topic_len (drop (idx + 2) packet)) ≡ some topic
    → get_elem? packet 0 ≡ some first
    → parse_publish packet
      ≡ some
          (record { topic = topic; payload = drop (payload_at first (idx + 2 + topic_len)) packet })
unfolding parse_publish
parse_publish_parts packet idx topic_len first topic e l t f = rw (e, l, t, f)

-- The bits of the first byte that say how long the identifier is.
payload_at-publish :
    (dup qos retain hi lo k : ℕ)
    → qos ≤ 2
    → retain ≤ 1
    → payload_at (publish_byte dup qos retain) k ≡ k + length (identifier qos hi lo)
payload_at-publish dup zero retain hi lo k q r = ground arith
payload_at-publish dup (suc qos) retain hi lo k q r = ground arith

-- Topic and payload come out of a PUBLISH packet, at every quality of service and with any flags.
pub parse_publish_lem :
    (dup qos retain hi lo : ℕ) (topic : String) (payload : List ℕ)
    → qos ≤ 2
    → retain ≤ 1
    → length (Utf8.encode topic) < 65536
    → parse_publish (framed (publish_byte dup qos retain) (publish_body qos hi lo topic payload))
      ≡ some (record { topic = topic; payload = payload })
parse_publish_lem dup qos retain hi lo topic payload q r h =
    let name = Utf8.encode topic in
    let body = publish_body qos hi lo topic payload in
    let n = encode_remaining_length (length body) in
    let first = publish_byte dup qos retain in
    let packet = framed first body in
    let idx = suc (length n) in
    let header : (decode_remaining_length packet 1).1 ≡ idx =
      ground (arith, decode-encode_remaining_length (first ∷ []) (length body) body) in
    let at_body : drop idx packet ≡ body = drop-length (first ∷ n) body in
    let at_name : drop (idx + 2) packet ≡ name ++ (identifier qos hi lo ++ payload) =
      drop-add idx 2 packet ∙ ap (drop 2) at_body in
    let at_id : drop (idx + 2 + length name) packet ≡ identifier qos hi lo ++ payload =
      drop-add (idx + 2) (length name) packet
      ∙ ap (drop (length name)) at_name
      ∙ drop-length name (identifier qos hi lo ++ payload) in
    let at_payload : drop (payload_at first (idx + 2 + length name)) packet ≡ payload =
      rw (payload_at-publish dup qos retain hi lo (idx + 2 + length name) q r) (
        drop-add (idx + 2 + length name) (length (identifier qos hi lo)) packet
        ∙ ap (drop (length (identifier qos hi lo))) at_id
        ∙ drop-length (identifier qos hi lo) payload) in
    let named : Utf8.decode (take (length name) (drop (idx + 2) packet)) ≡ some topic =
      rw (at_name, take-length name (identifier qos hi lo ++ payload)) (decode-encode topic) in
    let sized : unpack_short (take 2 (drop idx packet)) ≡ some (length name) =
      rw at_body (unfold unpack_short in ground arith) in
    parse_publish_parts packet idx (length name) first topic header sized named refl
    ∙ ap (λ p. some (record { topic = topic; payload = p })) at_payload

-- A SUBACK packet gives its return codes, in the order of the request.
pub parse_suback_lem :
    (hi lo : ℕ) (codes : List ℕ) → parse_suback (framed 0x90 (hi ∷ lo ∷ codes)) ≡ codes
unfolding parse_suback
parse_suback_lem hi lo codes =
    let body = hi ∷ lo ∷ codes in
    let n = encode_remaining_length (length body) in
    let packet = framed 0x90 body in
    let header : (decode_remaining_length packet 1).1 ≡ suc (length n) =
      ground (arith, decode-encode_remaining_length (0x90 ∷ []) (length body) body) in
    rw header (drop-add (suc (length n)) 2 packet ∙ ap (drop 2) (drop-length (0x90 ∷ n) body))
