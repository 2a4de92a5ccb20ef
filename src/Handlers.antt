-- ===== src/Handlers.antt =====
-- custom_components/eisenberg/coordinator.py: the handlers of the device topics. The validators are pydantic's
-- `model_validate` of the models; what does not validate is logged and changes nothing.
pub mod Blocks
mod Tests
use ha_eisenberg.Common.{
  ℕ, ◌+◌, [], ◌∷◌, ◌++◌, List, Option, none, some, String, Bool, true, false, not, ◌||◌, str_eq,
  if◌then◌else◌, get_elem?,
}
use ha_eisenberg.Dicts.{lookup, put}
use ha_eisenberg.Json.{
  Json, null, bool, int, float, str, array, object, Entries, no_entries, entry, get, as_str, is_str,
  as_object,
}
use ha_eisenberg.Topics.{split_slash, contains}
use ha_eisenberg.Http.{is_truthy, get_in}
use ha_eisenberg.Modes.{LocationState, arlo_modes, apply_mode}
use ha_eisenberg.Devices.{DeviceInfo, DeviceState, merge_device_state}
use ha_eisenberg.Session.{find_device, location_for_device}

pub record SpotlightState : Type 0 where
  pub enabled : Bool
  pub intensity : Option ℕ

-- What the handlers read and write of the coordinator, and how often the entities were told.
pub record Home : Type 0 where
  pub devices : List DeviceInfo
  pub device_states : List (String × DeviceState)
  pub spotlight_states : List (String × SpotlightState)
  pub locations : List (String × LocationState)
  pub basestation_connection : List (String × String)
  pub pushes : ℕ

abbrev pub push_to_entities : Home → Home
push_to_entities h = record h { pushes = h.pushes + 1 }

abbrev pub merge_state : Home → String → DeviceState → Home
merge_state h id state = record h {
  device_states = (merge_device_state h.device_states id state).1;
}

abbrev pub or_else : Option Json → Json → Json
or_else none j = j
or_else (some i) j = i

-- payload.get("properties") or payload.get("states", {})
abbrev pub properties_or_states : Entries → Json
properties_or_states payload =
    if is_truthy (get payload "properties")
    then or_else (get payload "properties") null
    else or_else (get payload "states") (object no_entries)

abbrev pub connect_base : Home → String → Option String → Home
connect_base h id none = h
connect_base h id (some state) = record h {
  basestation_connection = put h.basestation_connection id state;
}

module _ (validate_state : Json → Option DeviceState) where
  -- What one block of a base station's answer does, and whether it counts as updated.
  abbrev pub apply_block : Home → String → Option DeviceState → Home × Bool
  apply_block h id none = (h, false)
  apply_block h id (some state) =
      (connect_base (merge_state h id state) id state.connection_state, true)

  -- A block that is no object is skipped, and so is one that does not validate.
  abbrev pub block_state : Json → Option DeviceState
  block_state (object o) = validate_state (object o)
  block_state null = none
  block_state (bool b) = none
  block_state (int n) = none
  block_state (float f) = none
  block_state (str s) = none
  block_state (array l) = none

  unfoldable pub apply_blocks : Home → Entries → Home × Bool
  unfolding merge_device_state put
  apply_blocks h no_entries = (h, false)
  apply_blocks h (entry id props blocks) =
      let (after, this) = apply_block h id (block_state props) in
      let (final, others) = apply_blocks after blocks in (final, this || others)

  abbrev pub push_if : Home × Bool → Home
  push_if (h, true) = push_to_entities h
  push_if (h, false) = h

  abbrev pub answered_devices : Home → Option Entries → Home
  answered_devices h none = h
  answered_devices h (some blocks) = push_if (apply_blocks h blocks)

  unfoldable pub handle_devices_response : Home → Entries → Home
  unfolding apply_blocks get
  handle_devices_response h payload =
      if is_str (as_str (get payload "resource")) "devices"
      then answered_devices h (as_object (get payload "devices"))
      else h

  abbrev pub sensed : Home → String → Option DeviceState → Home
  sensed h id none = h
  sensed h id (some state) = push_to_entities (merge_state h id state)

  -- `_handle_sensor_state`; the route's filter has six levels.
  unfoldable pub handle_sensor_state : Home → String → Entries → Home
  unfolding merge_device_state split_slash get
  handle_sensor_state h topic payload = elim (get_elem? (split_slash topic) 4) [
    | none ↦ h
    | some id ↦
        sensed h id (validate_state (or_else (get payload "properties") (object no_entries)))
  ]

  module _ (validate_spotlight : Json → Option SpotlightState) where
    abbrev pub lit : Home → String → Option SpotlightState → Home
    lit h id none = h
    lit h id (some s) = record h { spotlight_states = put h.spotlight_states id s }

    abbrev pub spotlight_block : Option Entries → Option SpotlightState
    spotlight_block none = none
    spotlight_block (some o) = validate_spotlight (object o)

    -- The spotlight's own block, when it is an object.
    abbrev pub spotlight_of : Json → Option SpotlightState
    spotlight_of properties =
        spotlight_block (as_object (get_in (as_object (some properties)) "spotlight"))

    abbrev pub camera_reported : Home → String → Json → Option DeviceState → Home
    camera_reported h id properties none = h
    camera_reported h id properties (some state) =
        push_to_entities (lit (merge_state h id state) id (spotlight_of properties))

    -- `_handle_camera_state`
    unfoldable pub handle_camera_state : Home → String → Entries → Home
    unfolding merge_device_state put split_slash get
    handle_camera_state h topic payload = elim (get_elem? (split_slash topic) 4) [
      | none ↦ h
      | some id ↦
          camera_reported h id (properties_or_states payload)
            (validate_state (properties_or_states payload))
    ]

-- `_handle_basestation`, on the model of its properties: an empty one is an acknowledgement.
abbrev pub heard_base : Home → Option String → Option (Option String) → Home
heard_base h none state = h
heard_base h (some id) none = h
heard_base h (some id) (some none) = h
heard_base h (some id) (some (some state)) = push_to_entities (connect_base h id (some state))

module _ (validate_base : Json → Option (Option String)) where
  unfoldable pub handle_basestation : Home → Entries → Home
  unfolding put get
  handle_basestation h payload = heard_base h (as_str (get payload "from")) (
      validate_base (
        if is_truthy (get payload "properties")
        then or_else (get payload "properties") null
        else object no_entries))

-- The device that broadcasts, and the id of its location.
abbrev pub location_id_of : Option LocationState → Option String
location_id_of none = none
location_id_of (some location) = some location.location_id

abbrev pub broadcaster : Home → Option String → Option DeviceInfo
broadcaster h none = none
broadcaster h (some id) = find_device h.devices id

abbrev pub location_of : Home → Option DeviceInfo → Option String
location_of h none = none
location_of h (some d) = location_id_of (location_for_device h.locations d)

abbrev pub mode_reported : Home → String → Option String → Home
mode_reported h topic none = h
mode_reported h topic (some mode) =
    if contains arlo_modes mode
    then push_to_entities (record h {
      locations =
          apply_mode h.locations (location_of h (broadcaster h (get_elem? (split_slash topic) 4)))
            mode [];
    })
    else h

-- `_handle_device_states`: only a standard mode counts.
unfoldable pub handle_device_states : Home → String → Entries → Home
unfolding get contains apply_mode find_device location_for_device split_slash
handle_device_states h topic payload =
    mode_reported h topic (as_str (get_in (as_object (get payload "states")) "activeMode"))
