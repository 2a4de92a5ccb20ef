-- ===== src/Lib.antt =====
-- Eisenberg, a Home Assistant integration for Arlo cameras. It has a typed client library (eisenberg/),
-- which speaks to Arlo over REST, MQTT and server-sent events, and an integration
-- (custom_components/eisenberg/), whose coordinator keeps the state of the entities by the events.
--
-- Files.
--   Common and its children: numbers, lists and texts that the other modules share. Dicts: Python's dict
--     with text keys, an association list in the order of insertion. Json: the values of `json.loads`.
--   Utf8: `str.encode` and `bytes.decode` of Python, which the codec uses.
--   Codec: eisenberg/mqtt_codec.py. Bytes are numbers below 256, `bytes` a list of them; an exception
--     is `none`. The names are the source's without the leading underscore: `take_packet`,
--     `split_packets`, `parse_publish` and so on. The readers of Codec/Builders are a broker's, after
--     the MQTT specification, and are no code of the program.
--   Topics: the router, `_matches`, `build_subscribe_topics` of eisenberg/mqtt.py and `SubscribeOutcome`
--     of eisenberg/models.py. Topics are native strings; `split_slash` is `split("/")`.
--   Stream: `MQTTEventStream` of eisenberg/mqtt.py. The messages of the WebSocket are a list, and the
--     handshake (`connect` from the CONNACK on) and `_listen_loop` consume it. Stream/Frames relates
--     both to the packets of the whole byte stream, Stream/Session puts them together.
--   Sse: eisenberg/sse.py, the parser, one session (`_read_session`) and the delays of `_run`.
--   Http: eisenberg/exceptions.py, and the client's state and exchange of one request
--     (`_read_arlo_json`, `_arlo_meta`, `_raise_for_arlo_error` of eisenberg/client.py). An action takes the
--     client, the clock, the replies to come and the log of what was sent, and gives a result or an error
--     beside the world after it. Http/Rules has a rule for each way to build an action.
--   Login: `login`, the second factor and the session of eisenberg/client.py. Login/Log has the rules for
--     logs of requests beside their answers.
--   Commands: `_dedupe_devices`, `get_devices`, the device commands and `get_locations` of the same file.
--   Modes: LocationState and the custom modes of eisenberg/models.py; `_apply_mode` of the coordinator,
--     custom_components/eisenberg/coordinator.py.
--   Devices: DeviceInfo and DeviceState; the coordinator's merge of partial states, the location of a device
--     and the pruning of locations.
--   Session: the coordinator's `call_with_session_retry`, `location_for_device`, `mode_for_device`,
--     `request_snapshot` (`ask_snapshot` here) and `async_set_active_mode`, over the client's actions.
--   Connection: the coordinator's `_ensure_mqtt`, `_reconnect_mqtt_with_backoff` and
--     `_handle_mqtt_disconnect` as a step relation, one step between two suspensions, and the exception that
--     ends a listen loop (eisenberg/mqtt.py) as one more.
--   Gap: the coordinator's device lists, `_mqtt_extra_topics`, `_sse_gap_resources` and
--     `_handle_sse_event`. Handlers: its handlers of cameras, sensors and base stations.
--   Routes: its table of topics, `_event_routes`. Bases: `_bring_up_base_stations` and what stands around it.
--   Discovery: the locations and modes that `async_setup` reads, with the client's `get_custom_modes`.
--   Flow: custom_components/eisenberg/config_flow.py. Each step takes what the client's calls come to, as
--     functions of their arguments; Flow/Run plays Home Assistant's part, one form after the other.
--   Entities: what the entities of custom_components/eisenberg show: binary_sensor.py, switch.py, light.py,
--     sensor.py and select.py. Entities/Detection follows a detection sensor over time, second by second.
--   Camera: camera.py there. The client's `start_stream` runs under the coordinator's session retry.
--
-- Fuel. `_encode_remaining_length` recurs on accessibility. `split_packets` has as many rounds as the
-- buffer has bytes, and `split_packets_drains` shows that the loop ends by its own test. The loop for
-- the SUBACK takes fuel; with more fuel than bytes it ends.
--
-- Parameters: `json.loads`, pydantic's `model_validate`, the incremental decoder of `codecs`, and the
-- handlers of the router. Of a request the path, the token, xCloudId and the body are kept, without the
-- time stamp of `transId`; base64 and the other headers are left out.
--
-- Not modelled: logging; the opening and closing of sockets and tasks; the keepalive task; the media
-- archive; the handlers of the feed, of snapshots, sirens and of the automation topics; how the
-- entities are built; Home Assistant's Stream; the scripts.
pub mod Common
pub mod Utf8
pub mod Codec
pub mod Topics
pub mod Stream
pub mod Dicts
pub mod Json
pub mod Sse
pub mod Http
pub mod Login
pub mod Modes
pub mod Devices
pub mod Commands
pub mod Session
pub mod Connection
pub mod Gap
pub mod Handlers
pub mod Routes
pub mod Bases
pub mod Discovery
pub mod Flow
pub mod Entities
pub mod Camera
