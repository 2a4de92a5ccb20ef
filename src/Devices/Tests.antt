-- ===== src/Devices/Tests.antt =====
-- Runs of the device states and locations, and their theorems at concrete devices.
use ha_eisenberg.Common.{◌≡◌, refl, List, String, true, false, [], ◌∷◌, ◌++◌, none, some, map}
use ha_eisenberg.Json.{pos}
use ha_eisenberg.Dicts.{lookup, put}
use ha_eisenberg.Topics.{contains}
use ha_eisenberg.Modes.{LocationInfo, from_info}
use ha_eisenberg.Devices.{
  DeviceInfo, DeviceState, merge_device_state, has_updates, after_underscore, suffix, gateway_of,
  is_gateway, resolve_location_for_device, claims_a_device, or_all, relevant_locations,
}
use ha_eisenberg.Devices.Merge.{battery, read_in, merge_all, newest, read-merge_all}
use ha_eisenberg.Devices.Locations.{resolve-relevant_locations}

devices : Unit {0}
unfolding lookup put contains merge_device_state has_updates after_underscore suffix gateway_of
    is_gateway resolve_location_for_device claims_a_device or_all relevant_locations merge_all
    newest
devices = tt

abbrev silent : DeviceState
silent = record {
  motion_detected = none;
  activity_state = none;
  date_started = none;
  signal_strength = none;
  battery_level = none;
  charging_state = none;
  connection_state = none;
  privacy_active = none;
  contact_state = none;
}

abbrev charged : DeviceState
charged = record silent { battery_level = some (pos 90) }

abbrev moving : DeviceState
moving = record silent { motion_detected = some true }

abbrev frames : List (String × DeviceState)
frames = ("C", charged) ∷ ("D", moving) ∷ ("C", moving) ∷ ("C", silent) ∷ []

kept_battery :
    lookup (merge_all [] frames) "C"
    ≡ some (record silent { battery_level = some (pos 90); motion_detected = some true })
unfolding devices
kept_battery = refl

read-merge_all_example :
    read_in battery (lookup (merge_all [] frames) "C")
    ≡ newest battery "C" (read_in battery (lookup [] "C")) frames
read-merge_all_example = read-merge_all battery [] frames "C"

abbrev camera : DeviceInfo
camera = record {
  device_id = "C";
  device_name = "Door";
  model_id = "M";
  x_cloud_id = "X";
  user_id = none;
  device_type = some "camera";
  parent_id = some "B";
  allowed_mqtt_topics = [];
}

abbrev empty_home : LocationInfo
empty_home = record { info_id = "1"; info_name = none; info_gateways = [] }

abbrev shared_home : LocationInfo
shared_home = record { info_id = "2"; info_name = none; info_gateways = "U_B" ∷ [] }

abbrev homes : List LocationInfo
homes = empty_home ∷ shared_home ∷ []

pruned : relevant_locations homes (camera ∷ []) ≡ shared_home ∷ []
unfolding devices
pruned = refl

resolve-relevant_locations_example :
    resolve_location_for_device camera
      (map from_info (relevant_locations homes ([] ++ (camera ∷ []))))
    ≡ resolve_location_for_device camera (map from_info homes)
resolve-relevant_locations_example = resolve-relevant_locations homes [] camera []

owner_plain : after_underscore "U" ≡ none
unfolding devices
owner_plain = refl

listed : contains (from_info shared_home).gateway_device_ids "U_B" ≡ true
unfolding devices
listed = refl

unlisted : is_gateway (gateway_of camera) (from_info empty_home).gateway_device_ids ≡ false
unfolding devices
unlisted = refl
