-- ===== src/Devices.antt =====
-- `DeviceInfo` and `DeviceState` of eisenberg/models.py, and of custom_components/eisenberg/coordinator.py
-- the merge of partial states, the location of a device and the pruning of locations.
pub mod Merge
pub mod Locations
mod Tests
use Prim.Native.Char.{Char, code}
use Prim.Native.String
use ha_eisenberg.Common.{
  ℕ, zero, suc, [], ◌∷◌, List, Option, none, some, String, Bool, true, false, ◌||◌, ◌==◌, str_eq,
  if◌then◌else◌, any, keep_if, map,
}
use ha_eisenberg.Json.{ℤ}
use ha_eisenberg.Dicts.{lookup, put}
use ha_eisenberg.Topics.{contains}
use ha_eisenberg.Modes.{LocationInfo, LocationState}

-- Without `properties` and `connectivity`, which are unparsed JSON.
pub record DeviceInfo : Type 0 where
  pub device_id : String
  pub device_name : String
  pub model_id : String
  pub x_cloud_id : String
  pub user_id : Option String
  pub device_type : Option String
  pub parent_id : Option String
  pub allowed_mqtt_topics : List String

pub record DeviceState : Type 0 where
  pub motion_detected : Option Bool
  pub activity_state : Option String
  pub date_started : Option ℤ
  pub signal_strength : Option ℤ
  pub battery_level : Option ℤ
  pub charging_state : Option String
  pub connection_state : Option String
  pub privacy_active : Option Bool
  pub contact_state : Option Bool

-- An update that is there replaces the value.
abbrev pub updated {ℓ} : {A : Type ℓ} → Option A → Option A → Option A
updated old none = old
updated old (some new) = some new

abbrev pub is_some {ℓ} : {A : Type ℓ} → Option A → Bool
is_some none = false
is_some (some a) = true

-- Whether `incoming.model_dump(exclude_none=True)` has an entry.
unfoldable pub has_updates : DeviceState → Bool
has_updates s =
    is_some s.motion_detected
    || (is_some s.activity_state
        || (is_some s.date_started
            || (is_some s.signal_strength
                || (is_some s.battery_level
                    || (is_some s.charging_state
                        || (is_some s.connection_state
                            || (is_some s.privacy_active || is_some s.contact_state)))))))

-- current.model_copy(update=incoming.model_dump(exclude_none=True))
abbrev pub model_copy : DeviceState → DeviceState → DeviceState
model_copy current incoming = record {
  motion_detected = updated current.motion_detected incoming.motion_detected;
  activity_state = updated current.activity_state incoming.activity_state;
  date_started = updated current.date_started incoming.date_started;
  signal_strength = updated current.signal_strength incoming.signal_strength;
  battery_level = updated current.battery_level incoming.battery_level;
  charging_state = updated current.charging_state incoming.charging_state;
  connection_state = updated current.connection_state incoming.connection_state;
  privacy_active = updated current.privacy_active incoming.privacy_active;
  contact_state = updated current.contact_state incoming.contact_state;
}

abbrev pub merged : Option DeviceState → DeviceState → DeviceState
merged none incoming = incoming
merged (some current) incoming = model_copy current incoming

-- `_merge_device_state`, with `device_states` before and after.
unfoldable pub merge_device_state :
    List (String × DeviceState) → String → DeviceState → Bool × List (String × DeviceState)
unfolding has_updates lookup put
merge_device_state states device_id incoming =
    if has_updates incoming
    then (true, put states device_id (merged (lookup states device_id) incoming))
    else (false, states)

-- What follows the first "_", if there is one.
unfoldable pub after_underscore : String → Option String
after_underscore String.[] = none
after_underscore (String.◌∷◌ c s) =
    let further = after_underscore s in if code c == b'_' then some s else further

-- gid.split("_", 1)[-1] if "_" in gid else gid
unfoldable pub suffix : String → String
unfolding after_underscore
suffix gid = elim (after_underscore gid) [ none ↦ gid | some rest ↦ rest ]

-- device.parent_id or device.device_id
unfoldable pub gateway_of : DeviceInfo → String
gateway_of d = elim d.parent_id [
  | none ↦ d.device_id
  | some parent ↦ if str_eq parent "" then d.device_id else parent
]

-- The inner loop: one of the gateway ids is the gateway's, with its owner before it or without.
unfoldable pub is_gateway : String → List String → Bool
unfolding suffix
is_gateway gateway gids = any (λ gid. str_eq gateway gid || str_eq gateway (suffix gid)) gids

unfoldable pub resolve_location_for_device : DeviceInfo → List LocationState → Option LocationState
unfolding is_gateway gateway_of
resolve_location_for_device device [] = none
resolve_location_for_device device (location ∷ locations) =
    let further = resolve_location_for_device device locations in
    if is_gateway (gateway_of device) location.gateway_device_ids then some location else further

-- gid in gateways or suffix in gateways
unfoldable pub claims_a_device : List String → LocationInfo → Bool
unfolding contains suffix
claims_a_device gateways info =
    any (λ gid. contains gateways gid || contains gateways (suffix gid)) info.info_gateways

unfoldable pub or_all {ℓ} : {A : Type ℓ} → List A → List A → List A
or_all [] infos = infos
or_all (info ∷ relevant) infos = info ∷ relevant

unfoldable pub relevant_locations : List LocationInfo → List DeviceInfo → List LocationInfo
unfolding claims_a_device or_all
relevant_locations infos devices =
    or_all (keep_if (claims_a_device (map gateway_of devices)) infos) infos
