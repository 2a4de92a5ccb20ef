-- ===== src/Bases/Tests.antt =====
-- A base station that registers and one that refuses, and the theorem for them.
use ha_eisenberg.Common.{◌+◌, ◌≡◌, ◌⊎◌, refl, [], ◌∷◌, List, none, some, String, Bool, true}
use ha_eisenberg.Dicts.{lookup, put}
use ha_eisenberg.Json.{null, bool, str, get}
use ha_eisenberg.Http.{
  Reply, json, not_json, Client, World, ◌>>=◌, exchange, require_success, raise_for_arlo_error,
}
use ha_eisenberg.Login.{fields}
use ha_eisenberg.Devices.{DeviceInfo}
use ha_eisenberg.Commands.{
  authenticated, device_cloud_id, register_event_subscription, request_device_states,
}
use ha_eisenberg.Gap.{is_lowered}
use ha_eisenberg.Handlers.{Home}
use ha_eisenberg.Bases.{
  set_connection, after_registration, bring_up_one, bring_up_each, bring_up_base_stations,
  maybe_renew_base_stations,
}
use ha_eisenberg.Bases.Reached.{Reached, outcome, bring_up_base_stations_lem}

abbrev base : String → DeviceInfo
base id = record {
  device_id = id;
  device_name = "Hub";
  model_id = "M";
  x_cloud_id = "X";
  user_id = none;
  device_type = some "basestation";
  parent_id = none;
  allowed_mqtt_topics = [];
}

abbrev house : Home
house = record {
  devices = base "B" ∷ base "D" ∷ [];
  device_states = [];
  spotlight_states = [];
  locations = [];
  basestation_connection = ("B", "unavailable") ∷ [];
  pushes = 0;
}

abbrev signed_in : Client
signed_in = record {
  token = str "T";
  user_id = str "U";
  mqtt_url = null;
  x_cloud_id = none;
  device_cloud_ids = ("B", "X") ∷ ("D", "X") ∷ [];
  device_parent_ids = [];
  token_issued_at = 0;
}

abbrev success : Reply
success = json (fields (("success", bool true) ∷ []))

-- The first base accepts and is asked for its state, the second does not answer.
abbrev answering : World
answering = record {
  client = signed_in;
  clock = 2000;
  replies = success ∷ success ∷ not_json ∷ [];
  sent = [];
}

abbrev up_and_down : List (String × String)
up_and_down = ("B", "available") ∷ ("D", "unavailable") ∷ []

brought_up : (bring_up_base_stations house answering).0.basestation_connection ≡ up_and_down
unfolding bring_up_base_stations bring_up_each bring_up_one after_registration set_connection lookup
    put get is_lowered register_event_subscription request_device_states authenticated
    device_cloud_id exchange require_success raise_for_arlo_error ◌>>=◌
brought_up = refl

-- Half an hour has not passed.
not_renewed : maybe_renew_base_stations house 600 answering ≡ ((house, 600), answering)
unfolding maybe_renew_base_stations
not_renewed = refl

bring_up_base_stations_example :
    (l : List (String × Bool)) × (Reached house.devices answering l
        (bring_up_base_stations house answering).1
      × (((id : String)
            → lookup (bring_up_base_stations house answering).0.basestation_connection id
              ≡ outcome l id (lookup house.basestation_connection id))
          × (((bring_up_base_stations house answering).0.pushes ≡ house.pushes + 1)
              ⊎ ((id : String)
                  → lookup (bring_up_base_stations house answering).0.basestation_connection id
                    ≡ lookup house.basestation_connection id))))
bring_up_base_stations_example = bring_up_base_stations_lem house answering
