-- ===== src/Stream/Tests.antt =====
-- A session with its bytes cut in the middle of packets, and the theorems at it.
use ha_eisenberg.Common.{ℕ, ◌≡◌, ◌≢◌, refl, ◌++◌, List, true, false, arith, [], ◌∷◌, none}
use ha_eisenberg.Codec.{
  take_packet, split_packets, parse_packet_type, parse_connack, parse_suback, parse_publish,
  unpack_short,
}
use ha_eisenberg.Topics.{SubscribeOutcome, topic_results}
use ha_eisenberg.Stream.{
  WsMessage, binary, closed, other, read_packet, is_dispatched, drain_then, listen_loop, crashed,
  await_suback, connect, connected,
}
use ha_eisenberg.Stream.Frames.{
  received, until_malformed, all_dispatched, dispatched-listen_loop, crashed-listen_loop,
}
use ha_eisenberg.Stream.Session.{IsSession, connect-IsSession, await_suback-ne-none}
use ha_eisenberg.Utf8

stream : Unit {0}
unfolding connect await_suback read_packet take_packet split_packets parse_packet_type parse_connack
    parse_suback parse_publish unpack_short is_dispatched listen_loop drain_then topic_results
    until_malformed Utf8.decode
stream = tt

-- CONNACK; a PUBLISH that races ahead, cut in two; the SUBACK with a PUBLISH behind it; the end.
abbrev publish_a : List ℕ
publish_a = 0x30 ∷ 4 ∷ 0 ∷ 1 ∷ 0x61 ∷ 7 ∷ []

abbrev frames_in : List WsMessage
frames_in =
    binary (0x20 ∷ 2 ∷ 0 ∷ 0 ∷ 0x30 ∷ 4 ∷ 0 ∷ [])
    ∷ binary (1 ∷ 0x61 ∷ 7 ∷ 0x90 ∷ 4 ∷ 0 ∷ 1 ∷ 0 ∷ 0x80 ∷ 0x30 ∷ 4 ∷ 0 ∷ 1 ∷ 0x61 ∷ [])
    ∷ other
    ∷ binary (7 ∷ [])
    ∷ closed
    ∷ []

abbrev outcome_in : SubscribeOutcome
outcome_in = record {
  results =
      record { topic = "t"; code = 0; granted = true }
      ∷ record { topic = "s"; code = 0x80; granted = false }
      ∷ [];
}

session_connects :
    connect 30 ("t" ∷ "s" ∷ []) frames_in
    ≡ connected
        (publish_a ∷ [])
        outcome_in
        (0x30 ∷ 4 ∷ 0 ∷ 1 ∷ 0x61 ∷ [])
        (other ∷ binary (7 ∷ []) ∷ closed ∷ [])
unfolding stream
session_connects = refl

connect-IsSession_example : IsSession ("t" ∷ "s" ∷ []) frames_in outcome_in (
    (publish_a ∷ [])
    ++ (listen_loop false
        (0x30 ∷ 4 ∷ 0 ∷ 1 ∷ 0x61 ∷ [])
        (other ∷ binary (7 ∷ []) ∷ closed ∷ [])).dispatched)
connect-IsSession_example =
    connect-IsSession 30 ("t" ∷ "s" ∷ []) frames_in (publish_a ∷ []) outcome_in
      (0x30 ∷ 4 ∷ 0 ∷ 1 ∷ 0x61 ∷ []) (other ∷ binary (7 ∷ []) ∷ closed ∷ []) false session_connects

dispatched_later :
    (listen_loop false
      (0x30 ∷ 4 ∷ 0 ∷ 1 ∷ 0x61 ∷ [])
      (other ∷ binary (7 ∷ []) ∷ closed ∷ [])).dispatched
    ≡ publish_a ∷ []
unfolding stream
dispatched_later = refl

dispatched-listen_loop_example :
    (listen_loop false
      (0x30 ∷ 4 ∷ 0 ∷ 1 ∷ 0x61 ∷ [])
      (other ∷ binary (7 ∷ []) ∷ closed ∷ [])).dispatched
    ≡ until_malformed
        (split_packets
          ((0x30 ∷ 4 ∷ 0 ∷ 1 ∷ 0x61 ∷ []) ++ received (other ∷ binary (7 ∷ []) ∷ closed ∷ []))).0
dispatched-listen_loop_example =
    dispatched-listen_loop false (0x30 ∷ 4 ∷ 0 ∷ 1 ∷ 0x61 ∷ [])
      (other ∷ binary (7 ∷ []) ∷ closed ∷ [])

-- A PUBLISH whose topic is not UTF-8.
abbrev bad_topic : List WsMessage
bad_topic = binary (0x30 ∷ 3 ∷ 0 ∷ 1 ∷ 0xff ∷ []) ∷ closed ∷ []

one_is_bad : all_dispatched (split_packets ([] ++ received bad_topic)).0 ≡ false
unfolding stream
one_is_bad = refl

crashed-listen_loop_example : (listen_loop false [] bad_topic).ending ≡ crashed
crashed-listen_loop_example = crashed-listen_loop false [] bad_topic one_is_bad

await_suback-ne-none_example : await_suback 6 [] (binary (0x90 ∷ 3 ∷ 0 ∷ 1 ∷ 0 ∷ []) ∷ []) ≢ none
await_suback-ne-none_example =
    await_suback-ne-none 6 [] (binary (0x90 ∷ 3 ∷ 0 ∷ 1 ∷ 0 ∷ []) ∷ []) (omega arith)
