-- ===== src/Routes.antt =====
-- custom_components/eisenberg/coordinator.py: the table of the topic patterns and their handlers, which the
-- router of eisenberg/mqtt.py holds for MQTT and for the supplement.
pub mod Apart
mod Tests
use ha_eisenberg.Common.{[], ◌∷◌, List, String}
use ha_eisenberg.Topics.{TopicRouter, register, split_slash}
use ha_eisenberg.Gap.{register_all, sse_router}

-- The handlers, by their names.
pub data Handler : Type 0 where
  camera_state sensor_state snapshot last_image_snapshot siren feed media_upload : Handler
  active_mode custom_modes connectivity basestation device_states devices_response : Handler
  subscription_ack geofences exception_sensors : Handler

-- `_event_routes`
abbrev pub event_routes : List (String × Handler)
event_routes =
    ("d/+/out/cameras/+/is", camera_state)
    ∷ ("d/+/out/cameras/+/privacyZones/is", camera_state)
    ∷ ("d/+/out/doorbells/+/is", camera_state)
    ∷ ("d/+/out/doorbells/+/privacyZones/is", camera_state)
    ∷ ("d/+/out/cameras/+/fullFrameSnapshotAvailable", snapshot)
    ∷ ("d/+/out/doorbells/+/fullFrameSnapshotAvailable", snapshot)
    ∷ ("d/+/out/cameras/+/lastImageSnapshotAvailable", last_image_snapshot)
    ∷ ("d/+/out/doorbells/+/lastImageSnapshotAvailable", last_image_snapshot)
    ∷ ("d/+/out/sensors/+/is", sensor_state)
    ∷ ("d/+/out/siren/+/is", siren)
    ∷ ("u/+/in/feed/live", feed)
    ∷ ("u/+/in/library/add", media_upload)
    ∷ ("u/+/in/automation/activeMode/is", active_mode)
    ∷ ("u/+/in/automation/customModes/is", custom_modes)
    ∷ ("d/+/out/basestation/connectivity/is", connectivity)
    ∷ ("d/+/out/basestation/is", basestation)
    ∷ ("d/+/out/devices/+/states/is", device_states)
    ∷ ("d/+/out/devices/is", devices_response)
    ∷ ("d/+/out/subscriptions/+/is", subscription_ack)
    ∷ ("u/+/in/automation/geofences/is", geofences)
    ∷ ("u/+/in/automation/exceptionSensors/is", exception_sensors)
    ∷ []

-- The router that the routes are registered in.
unfoldable pub event_router : TopicRouter Handler
unfolding register_all register split_slash
event_router = sse_router event_routes
