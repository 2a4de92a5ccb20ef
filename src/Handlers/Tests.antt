-- ===== src/Handlers/Tests.antt =====
-- Runs of the handlers, and their theorem at an answer with a malformed block.
use ha_eisenberg.Common.{◌≡◌, refl, [], ◌∷◌, Option, none, some}
use ha_eisenberg.Dicts.{lookup, put}
use ha_eisenberg.Json.{Json, int, str, pos, Entries, get}
use ha_eisenberg.Topics.{split_slash, contains}
use ha_eisenberg.Login.{fields, fields_of}
use ha_eisenberg.Modes.{LocationState, from_info, apply_mode, set_mode_at, set_mode}
use ha_eisenberg.Devices.{
  DeviceInfo, DeviceState, merge_device_state, has_updates, resolve_location_for_device, is_gateway,
  gateway_of, suffix, after_underscore,
}
use ha_eisenberg.Devices.Merge.{battery, read_in, newest}
use ha_eisenberg.Session.{find_device, location_for_device}
use ha_eisenberg.Handlers.{
  SpotlightState, Home, apply_blocks, handle_devices_response, handle_sensor_state,
  handle_camera_state, handle_basestation, handle_device_states,
}
use ha_eisenberg.Handlers.Blocks.{valid_blocks, read-apply_blocks}

handlers : Unit {0}
unfolding lookup put get split_slash contains apply_mode set_mode_at set_mode merge_device_state
    has_updates resolve_location_for_device is_gateway gateway_of suffix after_underscore
    find_device location_for_device apply_blocks handle_devices_response handle_sensor_state
    handle_camera_state handle_basestation handle_device_states
handlers = tt

abbrev silent : DeviceState
silent = record {
  motion_detected = none;
  activity_state = none;
  date_started = none;
  signal_strength = none;
  battery_level = none;
  charging_state = none;
  connection_state = none;
  privacy_active = none;
  contact_state = none;
}

abbrev charged : DeviceState
charged = record silent { battery_level = some (pos 90); connection_state = some "available" }

-- A validator for the tests: every object is a charged device.
abbrev as_charged : Json → Option DeviceState
as_charged j = some charged

abbrev no_light : Json → Option SpotlightState
no_light j = none

abbrev camera : DeviceInfo
camera = record {
  device_id = "C";
  device_name = "Door";
  model_id = "M";
  x_cloud_id = "X";
  user_id = none;
  device_type = none;
  parent_id = some "B";
  allowed_mqtt_topics = [];
}

abbrev place : LocationState
place = from_info (record { info_id = "L"; info_name = none; info_gateways = "U_B" ∷ [] })

abbrev home : Home
home = record {
  devices = camera ∷ [];
  device_states = [];
  spotlight_states = [];
  locations = ("L", place) ∷ [];
  basestation_connection = [];
  pushes = 0;
}

abbrev blocks : Entries
blocks = fields_of (("C", fields []) ∷ ("D", int (pos 3)) ∷ [])

answered :
    handle_devices_response as_charged home
      (fields_of (("resource", str "devices") ∷ ("devices", Json.object blocks) ∷ []))
    ≡ record home {
      device_states = ("C", charged) ∷ [];
      basestation_connection = ("C", "available") ∷ [];
      pushes = 1;
    }
unfolding handlers
answered = refl

reported :
    handle_camera_state as_charged no_light home "d/X/out/cameras/C/is" (fields_of [])
    ≡ record home { device_states = ("C", charged) ∷ []; pushes = 1 }
unfolding handlers
reported = refl

armed :
    (handle_device_states home "d/X/out/devices/C/states/is"
      (fields_of (("states", fields (("activeMode", str "armHome") ∷ [])) ∷ []))).locations
    ≡ ("L", record place { active_mode = some "armHome" }) ∷ []
unfolding handlers
armed = refl

read-apply_blocks_example :
    read_in battery (lookup (apply_blocks as_charged home blocks).0.device_states "C")
    ≡ newest battery "C"
        (read_in battery (lookup home.device_states "C"))
        (valid_blocks as_charged blocks)
read-apply_blocks_example = read-apply_blocks as_charged battery home blocks "C"
