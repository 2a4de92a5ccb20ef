-- ===== src/Discovery/Tests.antt =====
-- Locations whose modes cannot be read, and the theorem for one.
use ha_eisenberg.Common.{◌≡◌, refl, [], ◌∷◌, Option, none, some, List, String, true}
use ha_eisenberg.Dicts.{lookup, put}
use ha_eisenberg.Json.{Json, null, bool, str, array, item, no_items, get}
use ha_eisenberg.Http.{
  Result, ok, Reply, json, not_json, Client, World, ◌>>=◌, exchange, raise_for_arlo_error,
}
use ha_eisenberg.Login.{fields}
use ha_eisenberg.Modes.{Labels, LocationInfo, from_info, set_mode, custom_mode_labels}
use ha_eisenberg.Devices.{
  relevant_locations, claims_a_device, is_gateway, gateway_of, suffix, after_underscore,
}
use ha_eisenberg.Commands.{authenticated, get_locations, add_buckets, add_locations}
use ha_eisenberg.Session.{ActiveModeState, automation, get_active_mode}
use ha_eisenberg.Discovery.{
  section_modes, get_custom_modes, discover_one, discover_each, discover_locations,
}
use ha_eisenberg.Discovery.Kept.{read_each, last_known, discover_locations_lem}

abbrev signed_in : Client
signed_in = record {
  token = str "T";
  user_id = str "U";
  mqtt_url = null;
  x_cloud_id = none;
  device_cloud_ids = [];
  device_parent_ids = [];
  token_issued_at = 0;
}

abbrev home : LocationInfo
home = record { info_id = "L"; info_name = none; info_gateways = [] }

abbrev as_home : Json → Option LocationInfo
as_home j = some home

abbrev no_mode : Json → Option ActiveModeState
no_mode j = none

abbrev night : Json → Option (List (String × Labels))
night j = some (("G", ("m1", "Night") ∷ []) ∷ [])

abbrev listing : Reply
listing = json (fields (("data", fields (("userLocations", array (item null no_items)) ∷ [])) ∷ []))

abbrev with_modes : Reply
with_modes = json (
    fields (
      ("success", bool true)
      ∷ ("data", fields (("customModes", fields (("properties", null) ∷ [])) ∷ []))
      ∷ []))

abbrev before : World
before = record {
  client = signed_in;
  clock = 0;
  replies = listing ∷ not_json ∷ with_modes ∷ [];
  sent = [];
}

abbrev listed : Result (List LocationInfo) × World
listed = get_locations as_home before

-- The mode is missing, the custom modes are there.
half_read :
    (discover_locations as_home no_mode night [] before).0
    ≡ ("L", record (from_info home) { custom_modes = ("G", ("m1", "Night") ∷ []) ∷ [] }) ∷ []
unfolding discover_locations discover_each discover_one get_custom_modes section_modes lookup put
    get exchange ◌>>=◌ raise_for_arlo_error set_mode custom_mode_labels relevant_locations
    claims_a_device is_gateway gateway_of suffix after_underscore authenticated get_locations
    add_buckets add_locations automation get_active_mode
half_read = refl

one_location : listed ≡ (ok (home ∷ []), listed.1)
unfolding get_locations add_buckets add_locations lookup put get exchange ◌>>=◌ authenticated
one_location = refl

discover_locations_example :
    lookup (discover_locations as_home no_mode night [] before).0 "L"
    ≡ last_known
        (read_each as_home no_mode night (relevant_locations (home ∷ []) []) listed.1)
        "L"
        none
discover_locations_example =
    discover_locations_lem as_home no_mode night [] (home ∷ []) before listed.1 "L" one_location
