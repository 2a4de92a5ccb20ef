-- ===== src/Commands/Tests.antt =====
-- Runs of the device list and the commands, and their theorems at a base station with a siren twin.
use ha_eisenberg.Common.{◌≡◌, refl, [], ◌∷◌, ◌++◌, List, Option, none, some, String, true, All}
use ha_eisenberg.Dicts.{lookup, put, has_key}
use ha_eisenberg.Json.{Json, null, bool, str, array, item, no_items, get}
use ha_eisenberg.Http.{
  runtime, ok, err, Reply, json, Request, Client, World, ◌>>=◌, exchange, subscript,
  require_success, raise_for_arlo_error,
}
use ha_eisenberg.Login.{fields}
use ha_eisenberg.Modes.{LocationInfo}
use ha_eisenberg.Devices.{DeviceInfo, gateway_of}
use ha_eisenberg.Commands.{
  is_siren_model, keep_devices, dedupe_devices, track, set_default, authenticated, get_devices,
  device_cloud_id, device_target, request_snapshot, start_stream, set_spotlight, set_privacy,
  set_siren, register_event_subscription, request_device_states, add_locations, add_buckets,
  get_locations,
}
use ha_eisenberg.Commands.Dedupe.{
  IsUnique, ids, first_any, first_real, preferred, dedupe_devices_lem,
}
use ha_eisenberg.Commands.Routing.{IsRouted, dedupe_devices-IsRouted}
use ha_eisenberg.Commands.Addressing.{siren, run, IsAddressed, run_lem}

commands : Unit {0}
unfolding get ◌>>=◌ exchange subscript require_success raise_for_arlo_error lookup put has_key
    is_siren_model keep_devices dedupe_devices track set_default authenticated get_devices
    device_cloud_id device_target request_snapshot start_stream set_spotlight set_privacy set_siren
    register_event_subscription request_device_states add_locations add_buckets get_locations
    gateway_of first_any first_real run
commands = tt

abbrev twin : DeviceInfo
twin = record {
  device_id = "B";
  device_name = "Siren";
  model_id = "VMB4500-siren";
  x_cloud_id = "X";
  user_id = none;
  device_type = some "siren";
  parent_id = none;
  allowed_mqtt_topics = [];
}

abbrev base : DeviceInfo
base = record twin { model_id = "VMB4500"; device_name = "Base" }

abbrev camera : DeviceInfo
camera = record twin { device_id = "C"; model_id = "VMC"; parent_id = some "B" }

twin_dropped : dedupe_devices (twin ∷ camera ∷ base ∷ []) ≡ base ∷ camera ∷ []
unfolding commands
twin_dropped = refl

abbrev signed_in : Client
signed_in = record {
  token = str "T";
  user_id = str "U";
  mqtt_url = null;
  x_cloud_id = none;
  device_cloud_ids = ("C", "X") ∷ [];
  device_parent_ids = ("C", "B") ∷ [];
  token_issued_at = 0;
}

abbrev answering : List Reply → World
answering replies = record { client = signed_in; clock = 50; replies = replies; sent = [] }

abbrev as_camera : Json → Option DeviceInfo
as_camera j = some camera

listed :
    (get_devices as_camera (
      answering (
        json (fields (("success", bool true) ∷ ("data", array (item null no_items)) ∷ [])) ∷ []))).0
    ≡ ok (camera ∷ [])
unfolding commands
listed = refl

unknown_device : request_snapshot "D" (answering []) ≡ (err runtime, answering [])
unfolding commands
unknown_device = refl

abbrev as_home : Json → Option LocationInfo
as_home j = some (record { info_id = "L"; info_name = none; info_gateways = [] })

located :
    (get_locations as_home (
      answering (
        json (
          fields (
            (
              "data",
              fields (
                  ("userLocations", array (item null no_items))
                  ∷ ("sharedLocations", array (item null no_items))
                  ∷ []),
            )
            ∷ []))
        ∷ []))).0
    ≡ ok (record { info_id = "L"; info_name = none; info_gateways = [] } ∷ [])
unfolding commands
located = refl

dedupe_devices_example :
    IsUnique (ids (dedupe_devices (twin ∷ camera ∷ base ∷ [])))
    × ((id : String)
        → first_any id (dedupe_devices (twin ∷ camera ∷ base ∷ []))
          ≡ preferred id (twin ∷ camera ∷ base ∷ []))
dedupe_devices_example = dedupe_devices_lem (twin ∷ camera ∷ base ∷ [])

dedupe_devices-IsRouted_example :
    let found = dedupe_devices (twin ∷ camera ∷ base ∷ []) in
    All (IsRouted (set_default (track signed_in found) found)) found
dedupe_devices-IsRouted_example = dedupe_devices-IsRouted signed_in (twin ∷ camera ∷ base ∷ [])

camera_target : lookup signed_in.device_parent_ids "C" ≡ some "B"
unfolding lookup
camera_target = refl

camera_cloud : lookup signed_in.device_cloud_ids "C" ≡ some "X"
unfolding lookup
camera_cloud = refl

run_example :
    (r : Request) × ((run (siren true) "C" (answering [])).sent ≡ [] ++ (r ∷ []))
    × IsAddressed (siren true) "C" "B" "X" (str "T") r
run_example = run_lem (siren true) "C" (answering []) refl "B" "X" camera_target camera_cloud
