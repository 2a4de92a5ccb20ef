-- ===== src/Stream.antt =====
-- eisenberg/mqtt.py, class MQTTEventStream: the handshake, the listen loop and the dispatch of packets.
-- The messages that `ws.receive()` gives are a list: a message is one frame, and an empty list is a
-- socket that has sent nothing more yet. `json.loads` and the handlers are parameters.
pub mod Frames
pub mod Session
mod Tests
use mathlib.Core.Option
use ha_eisenberg.Common.{
  ℕ, zero, suc, ◌+◌, ◌++◌, [], ◌∷◌, List, Option, none, some, String, Bool, true, false, not, ◌&&◌,
  ◌||◌, ◌==◌, map, if◌then◌else◌, length,
}
use ha_eisenberg.Codec.{
  take_packet, split_packets, parse_packet_type, parse_connack, parse_suback, parse_publish,
  build_connect, build_subscribe, MqttPublish,
}
use ha_eisenberg.Topics.{TopicRouter, match, SubscribeOutcome, topic_results}

-- aiohttp.WSMsgType, with the data of a binary message; `other` is any type that the loops pass over.
pub data WsMessage : Type 0 where
  binary : List ℕ → WsMessage
  closed : WsMessage
  error : WsMessage
  other : WsMessage

-- What a read during the handshake comes to: a packet, with the buffer and the messages behind it; the
-- ConnectionError; or the wait for a message that has not come.
pub data Reading : Type 0 where
  got : List ℕ → List ℕ → List WsMessage → Reading
  lost : Reading
  waiting : List ℕ → Reading

abbrev packet_or : Option (List ℕ) × List ℕ → List WsMessage → Reading → Reading
packet_or (some packet, rest) messages otherwise = got packet rest messages
packet_or (none, rest) messages otherwise = otherwise

-- `_read_packet`: the buffer is tried before each message.
unfoldable pub read_packet : List ℕ → List WsMessage → Reading
read_packet buffer [] = packet_or (take_packet buffer) [] (waiting buffer)
read_packet buffer (binary chunk ∷ messages) =
    let later = read_packet (buffer ++ chunk) messages in
    packet_or (take_packet buffer) (binary chunk ∷ messages) later
read_packet buffer (closed ∷ messages) = packet_or (take_packet buffer) (closed ∷ messages) lost
read_packet buffer (error ∷ messages) = packet_or (take_packet buffer) (error ∷ messages) lost
read_packet buffer (other ∷ messages) =
    let later = read_packet buffer messages in
    packet_or (take_packet buffer) (other ∷ messages) later

-- What dispatching one packet does: a handler called with the topic and the payload, or a line in the log.
pub data Effect (J H : Type 0) : Type 0 where
  handle : H → String → J → Effect J H
  not_json : String → Effect J H
  unhandled : String → J → Effect J H
  ignored : ℕ → Effect J H

module _ {J H : Type 0} (loads : List ℕ → Option J) (router : TopicRouter H) where
  handle_all : List H → String → J → List (Effect J H)
  handle_all [] topic payload = unhandled topic payload ∷ []
  handle_all (h ∷ hs) topic payload = map (λ handler. handle handler topic payload) (h ∷ hs)

  dispatch_publish : MqttPublish → List (Effect J H)
  unfolding handle_all
  dispatch_publish parsed = elim (loads parsed.payload) [
    | none ↦ not_json parsed.topic ∷ []
    | some payload ↦ handle_all (match router parsed.topic) parsed.topic payload
  ]

  -- `_dispatch_packet`. What `parse_publish` raises is raised here too (`none`): it stands before the
  -- `try`. What a handler raises is logged, and the next one is called.
  unfoldable pub dispatch_packet : List ℕ → Option (List (Effect J H))
  unfolding dispatch_publish
  dispatch_packet packet = elim (parse_packet_type packet) [
    | none ↦ none
    | some kind ↦
        if kind == 3
        then Option.map dispatch_publish (parse_publish packet)
        else some (if kind == 13 then [] else ignored kind ∷ [])
  ]

-- Whether `_dispatch_packet` gets through, whatever the handlers and the payload are.
unfoldable pub is_dispatched : List ℕ → Bool
is_dispatched packet = elim (parse_packet_type packet) [
  | none ↦ false
  | some kind ↦
      if kind == 3 then elim (parse_publish packet) [ none ↦ false | some _ ↦ true ] else true
]

-- How the listen loop stands: it waits for a message; it has ended and called `on_disconnect`; or the
-- task has ended by an exception, and nobody was told.
pub data Ending : Type 0 where
  listening disconnected crashed : Ending

-- The packets that were dispatched, in order, the buffer, and how the loop stands.
pub record Listening : Type 0 where
  pub dispatched : List (List ℕ)
  pub rx_buffer : List ℕ
  pub ending : Ending

abbrev dispatch_first : List ℕ → Listening → Listening
dispatch_first packet l = record l { dispatched = packet ∷ l.dispatched }

-- `_drain_buffer`, and what follows it: the buffer is set to the remainder first, and then each packet
-- is dispatched.
unfoldable pub drain_then : List (List ℕ) → List ℕ → Listening → Listening
drain_then [] remainder further = further
drain_then (packet ∷ packets) remainder further =
    let later = drain_then packets remainder further in
    if is_dispatched packet
    then dispatch_first packet later
    else record { dispatched = []; rx_buffer = remainder; ending = crashed }

-- `_listen_loop` from its first `receive` on. `idle` says that nothing comes for 90 seconds after the
-- last message, which ends the loop as a closed socket does.
unfoldable pub receive_loop : Bool → List ℕ → List WsMessage → Listening
receive_loop idle buffer [] = record {
  dispatched = [];
  rx_buffer = buffer;
  ending = if idle then disconnected else listening;
}
receive_loop idle buffer (binary chunk ∷ messages) =
    let (packets, remainder) = split_packets (buffer ++ chunk) in
    drain_then packets remainder (receive_loop idle remainder messages)
receive_loop idle buffer (closed ∷ messages) = record {
  dispatched = [];
  rx_buffer = buffer;
  ending = disconnected;
}
receive_loop idle buffer (error ∷ messages) = record {
  dispatched = [];
  rx_buffer = buffer;
  ending = disconnected;
}
receive_loop idle buffer (other ∷ messages) = receive_loop idle buffer messages

unfoldable pub listen_loop : Bool → List ℕ → List WsMessage → Listening
unfolding receive_loop
listen_loop idle buffer messages =
    let (packets, remainder) = split_packets buffer in
    drain_then packets remainder (receive_loop idle remainder messages)

-- The loop of `connect` that waits for the SUBACK (type 9): the packets that race ahead of it are
-- dispatched. It ends with the codes, the buffer and the messages to come; or by an exception; or it
-- waits. Each round reads a packet of two bytes or more; `none` is the end of the fuel.
pub data Subscribed : Type 0 where
  acknowledged : List (List ℕ) → List ℕ → List ℕ → List ℕ → List WsMessage → Subscribed
  failed : List (List ℕ) → Subscribed
  pending : List (List ℕ) → List ℕ → Subscribed

abbrev pub race_ahead : List ℕ → Option Subscribed → Option Subscribed
race_ahead packet none = none
race_ahead packet (some (acknowledged ahead suback codes buffer messages)) =
    some (acknowledged (packet ∷ ahead) suback codes buffer messages)
race_ahead packet (some (failed ahead)) = some (failed (packet ∷ ahead))
race_ahead packet (some (pending ahead buffer)) = some (pending (packet ∷ ahead) buffer)

abbrev pub is_suback : List ℕ → Bool
is_suback packet = elim (parse_packet_type packet) [ none ↦ false | some kind ↦ kind == 9 ]

abbrev pub await_round : (List ℕ → List WsMessage → Option Subscribed) → Reading → Option Subscribed
await_round further lost = some (failed [])
await_round further (waiting left) = some (pending [] left)
await_round further (got packet left later) =
    if is_suback packet
    then some (acknowledged [] packet (parse_suback packet) left later)
    else if is_dispatched packet
    then race_ahead packet (further left later)
    else some (failed [])

unfoldable pub await_suback : ℕ → List ℕ → List WsMessage → Option Subscribed
await_suback zero buffer messages = none
await_suback (suc fuel) buffer messages =
    await_round (await_suback fuel) (read_packet buffer messages)

-- `connect` from the CONNECT packet on: what is sent, and how it ends. The codes of the SUBACK are
-- matched with the filters that were asked for.
pub data Connected : Type 0 where
  connected : List (List ℕ) → SubscribeOutcome → List ℕ → List WsMessage → Connected
  refused : ℕ → Connected
  broken : Connected
  unfinished : Connected

subscribed : List String → Option Subscribed → Connected
subscribed topics (some (acknowledged ahead suback codes left later)) =
    connected ahead (record { results = topic_results topics codes }) left later
subscribed topics (some (failed ahead)) = broken
subscribed topics (some (pending ahead left)) = unfinished
subscribed topics none = unfinished

-- rc = parse_connack(connack); a code other than 0 closes the socket.
after_connack : ℕ → List String → Option ℕ → List ℕ → List WsMessage → Connected
unfolding subscribed
after_connack fuel topics none left later = broken
after_connack fuel topics (some rc) left later =
    if rc == 0 then subscribed topics (await_suback fuel left later) else refused rc

connect_round : ℕ → List String → Reading → Connected
unfolding after_connack
connect_round fuel topics lost = broken
connect_round fuel topics (waiting left) = unfinished
connect_round fuel topics (got connack left later) =
    after_connack fuel topics (parse_connack connack) left later

unfoldable pub connect : ℕ → List String → List WsMessage → Connected
unfolding connect_round
connect fuel topics messages = connect_round fuel topics (read_packet [] messages)
