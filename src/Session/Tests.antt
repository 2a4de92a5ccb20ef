-- ===== src/Session/Tests.antt =====
-- Runs of calls over a session, and the theorems at concrete worlds.
use ha_eisenberg.Common.{ℕ, ◌≡◌, refl, [], ◌∷◌, List, Option, none, some, true, false}
use ha_eisenberg.Dicts.{lookup, put}
use ha_eisenberg.Json.{Json, null, str, get}
use ha_eisenberg.Topics.{contains}
use ha_eisenberg.Http.{
  authentication, session_expired, transient, Reply, json, not_json, Client, World, Action, pure,
  raise, ◌>>=◌, exchange, raise_for_arlo_error,
}
use ha_eisenberg.Login.{fields}
use ha_eisenberg.Modes.{
  LocationState, from_info, set_mode, mode_label, custom_target, first_label, label_of, labels,
  target_from, target_in,
}
use ha_eisenberg.Modes.Target.{has_label}
use ha_eisenberg.Devices.{
  DeviceInfo, resolve_location_for_device, is_gateway, gateway_of, suffix, after_underscore,
}
use ha_eisenberg.Commands.{authenticated}
use ha_eisenberg.Session.{
  Standing, returned, raised, refused, after_login, after_try, call_with_session_retry,
  location_for_device, find_device, mode_for_device, ask_snapshot, ActiveModeState, automation,
  get_active_mode, set_active_mode, first_set, set_again, after_first, finish_set, set_sent,
  async_set_active_mode,
}
use ha_eisenberg.Session.Retry.{run_calls, IsOnce, run_calls_lem}
use ha_eisenberg.Session.SetMode.{KeepsMode, set_sent-KeepsMode}
use ha_eisenberg.Session.Shown.{accepted}

session : Unit {0}
unfolding lookup put get contains raise_for_arlo_error exchange ◌>>=◌ authenticated after_login
    after_try call_with_session_retry location_for_device find_device mode_for_device ask_snapshot
    automation get_active_mode set_active_mode first_set set_again after_first finish_set set_sent
    async_set_active_mode run_calls set_mode mode_label custom_target first_label label_of labels
    target_from target_in resolve_location_for_device is_gateway gateway_of suffix after_underscore
    has_label
session = tt

abbrev signed_in : Client
signed_in = record {
  token = str "T";
  user_id = str "U";
  mqtt_url = null;
  x_cloud_id = none;
  device_cloud_ids = [];
  device_parent_ids = [];
  token_issued_at = 0;
}

abbrev answering : List Reply → World
answering replies = record { client = signed_in; clock = 50; replies = replies; sent = [] }

abbrev alive : Standing
alive = record { is_dead = false; reauths = 0 }

abbrev dead : Standing
dead = record { is_dead = true; reauths = 1 }

abbrev expired : Action ℕ
expired = raise session_expired

abbrev refused_login : Action (Unit {0})
refused_login = raise authentication

-- Of three calls of an expired session only the first tries a login.
died_once :
    run_calls refused_login (expired ∷ expired ∷ expired ∷ []) alive (answering [])
    ≡ (dead, answering [])
unfolding session
died_once = refl

blocked_login :
    call_with_session_retry (raise transient) expired alive (answering [])
    ≡ (raised transient, (alive, answering []))
unfolding session
blocked_login = refl

run_calls_example :
    IsOnce alive (run_calls refused_login (expired ∷ expired ∷ []) alive (answering [])).0
run_calls_example = run_calls_lem refused_login (expired ∷ expired ∷ []) alive (answering []) refl

abbrev home : LocationState
home = record (from_info (record { info_id = "L"; info_name = none; info_gateways = "U_B" ∷ [] })) {
  active_mode = some "standby";
  custom_modes = ("G", ("m1", "Night") ∷ []) ∷ [];
}

abbrev camera : DeviceInfo
camera = record {
  device_id = "C";
  device_name = "Door";
  model_id = "M";
  x_cloud_id = "X";
  user_id = none;
  device_type = none;
  parent_id = some "B";
  allowed_mqtt_topics = [];
}

disarmed :
    ask_snapshot (("L", home) ∷ []) (camera ∷ []) refused_login (pure tt) "C" alive (answering [])
    ≡ (refused, (alive, answering []))
unfolding session
disarmed = refl

-- An answer without a mode, of revision 7.
abbrev as_revision : Json → Option ActiveModeState
as_revision j = some (record { properties = none; revision = 7 })

armed :
    (async_set_active_mode as_revision refused_login
      (("L", home) ∷ [])
      "L"
      "Night"
      alive
      (answering (json (fields []) ∷ []))).1.0
    ≡ (
      "L",
      record home {
        active_mode = some "custom";
        active_custom = ("G", "m1") ∷ [];
        mode_revision = 7;
      },
    )
      ∷ []
unfolding session
armed = refl

set_sent-KeepsMode_example : KeepsMode home (
    set_sent as_revision refused_login "L"
      (some ("armAway", none))
      home
      alive
      (answering (not_json ∷ [])))
set_sent-KeepsMode_example =
    set_sent-KeepsMode as_revision refused_login "L" (some ("armAway", none)) home alive
      (answering (not_json ∷ []))

-- The call is accepted there.
night_accepted :
    accepted as_revision refused_login "L"
      ("custom", some (("G", "m1") ∷ []))
      home
      alive
      (answering (json (fields []) ∷ []))
    ≡ returned (record { properties = none; revision = 7 })
unfolding session
night_accepted = refl
