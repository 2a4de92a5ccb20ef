-- ===== src/Codec/Tests.antt =====
-- Runs of the codec, and its theorems at concrete packets.
use ha_eisenberg.Common.{ℕ, ◌≡◌, refl, ◌<◌, ◌++◌, List, arith, length, [], ◌∷◌, none, some, ◌+◌}
use ha_eisenberg.Codec.{
  encode_remaining_length, decode_remaining_length, take_packet, split_packets, parse_publish,
  parse_suback, unpack_short, build_subscribe, build_connect, topic_filters, encode_utf8_string,
  pack_short, connect_body, framed,
}
use ha_eisenberg.Utf8
use ha_eisenberg.Codec.Varint.{decode-encode_remaining_length}
use ha_eisenberg.Codec.Take.{take_packet-append, take_packet-framed}
use ha_eisenberg.Codec.Split.{split_packets_drains, split_packets-append, join, then_split}
use ha_eisenberg.Codec.Publish.{parse_publish_lem, publish_byte, publish_body}

codec : Unit {0}
unfolding encode_remaining_length split_packets take_packet parse_publish parse_suback unpack_short
    build_subscribe build_connect topic_filters encode_utf8_string pack_short connect_body
    Utf8.decode Utf8.encode Utf8.encode_code
codec = tt

length_321 : encode_remaining_length 321 ≡ 193 ∷ 2 ∷ []
unfolding codec
length_321 = refl

abbrev two_pings : List ℕ
two_pings = 0xd0 ∷ 0x00 ∷ 0xd0 ∷ 0x00 ∷ 0x30 ∷ []

two_pings_split :
    split_packets two_pings ≡ ((0xd0 ∷ 0x00 ∷ []) ∷ (0xd0 ∷ 0x00 ∷ []) ∷ [], 0x30 ∷ [])
unfolding codec
two_pings_split = refl

a_publish :
    parse_publish (0x30 ∷ 5 ∷ 0 ∷ 1 ∷ 0x61 ∷ 7 ∷ 8 ∷ [])
    ≡ some (record { topic = "a"; payload = 7 ∷ 8 ∷ [] })
unfolding codec
a_publish = refl

a_truncated_publish : parse_publish (0x30 ∷ 2 ∷ 0 ∷ []) ≡ none
unfolding codec
a_truncated_publish = refl

abbrev type_byte : List ℕ
type_byte = 0x30 ∷ []

decode-encode_remaining_length_example :
    decode_remaining_length
      (type_byte ++ (encode_remaining_length 321 ++ (9 ∷ [])))
      (length type_byte)
    ≡ (321, length type_byte + length (encode_remaining_length 321))
decode-encode_remaining_length_example = decode-encode_remaining_length type_byte 321 (9 ∷ [])

taken_ping : take_packet two_pings ≡ (some (0xd0 ∷ 0x00 ∷ []), 0xd0 ∷ 0x00 ∷ 0x30 ∷ [])
unfolding codec
taken_ping = refl

take_packet-append_example :
    take_packet (two_pings ++ (0x02 ∷ []))
    ≡ (some (0xd0 ∷ 0x00 ∷ []), (0xd0 ∷ 0x00 ∷ 0x30 ∷ []) ++ (0x02 ∷ []))
take_packet-append_example =
    take_packet-append two_pings (0xd0 ∷ 0x00 ∷ []) (0xd0 ∷ 0x00 ∷ 0x30 ∷ []) (0x02 ∷ []) taken_ping

take_packet-framed_example :
    take_packet (framed 0x30 (0 ∷ 1 ∷ 0x61 ∷ []) ++ (0xd0 ∷ []))
    ≡ (some (framed 0x30 (0 ∷ 1 ∷ 0x61 ∷ [])), 0xd0 ∷ [])
take_packet-framed_example = take_packet-framed 0x30 (0 ∷ 1 ∷ 0x61 ∷ []) (0xd0 ∷ []) (omega arith)

partial_ping : framed 0xd0 (7 ∷ 8 ∷ []) ≡ (0xd0 ∷ 2 ∷ 7 ∷ []) ++ (8 ∷ [])
unfolding codec
partial_ping = refl

split_packets_drains_example :
    (join (split_packets two_pings).0 ++ (split_packets two_pings).1 ≡ two_pings)
    × (take_packet (split_packets two_pings).1 ≡ (none, (split_packets two_pings).1))
split_packets_drains_example = split_packets_drains two_pings

split_packets-append_example :
    split_packets (two_pings ++ (0x02 ∷ 7 ∷ 8 ∷ []))
    ≡ then_split (split_packets two_pings) (0x02 ∷ 7 ∷ 8 ∷ [])
split_packets-append_example = split_packets-append two_pings (0x02 ∷ 7 ∷ 8 ∷ [])

abbrev a_subscribe : List ℕ
a_subscribe = 0x82 ∷ 10 ∷ 0 ∷ 1 ∷ 0 ∷ 1 ∷ 0x61 ∷ 0 ∷ 0 ∷ 1 ∷ 0x62 ∷ 0 ∷ []

abbrev a_connect : List ℕ
a_connect =
    0x10 ∷ 19 ∷ 0x00 ∷ 0x04 ∷ 0x4d ∷ 0x51 ∷ 0x54 ∷ 0x54 ∷ 0x04 ∷ 0xc2 ∷ 0 ∷ 60 ∷ 0 ∷ 1 ∷ 0x63 ∷ 0
    ∷ 1 ∷ 0x75 ∷ 0 ∷ 1 ∷ 0x70 ∷ []

short_name : length (Utf8.encode "d/x") < 65536
unfolding codec
short_name = omega arith

parse_publish_example :
    parse_publish (framed (publish_byte 0 1 0) (publish_body 1 0 7 "d/x" (0x7b ∷ 0x7d ∷ [])))
    ≡ some (record { topic = "d/x"; payload = 0x7b ∷ 0x7d ∷ [] })
parse_publish_example =
    parse_publish_lem 0 1 0 0 7 "d/x" (0x7b ∷ 0x7d ∷ []) (omega arith) (omega arith) short_name
