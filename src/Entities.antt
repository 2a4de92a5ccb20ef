-- ===== src/Entities.antt =====
-- custom_components/eisenberg: what the entities show of the coordinator's state, of binary_sensor.py,
-- light.py, sensor.py, switch.py and select.py. `properties` are those of the device list.
pub mod Detection
pub mod Brightness
mod Tests
use ha_eisenberg.Common.{
  ℕ, ◌+◌, ◌-◌, ◌*◌, ◌/◌, ◌%◌, ◌==◌, ltb, leb, [], ◌∷◌, List, Option, none, some, String, Bool, true,
  false, not, ◌||◌, str_eq, if◌then◌else◌,
}
use ha_eisenberg.Dicts.{lookup}
use ha_eisenberg.Json.{
  ℤ, Json, null, bool, int, float, str, array, object, Entries, no_entries, entry, get,
}
use ha_eisenberg.Topics.{contains}
use ha_eisenberg.Modes.{LocationState, mode_options, mode_label}
use ha_eisenberg.Devices.{DeviceInfo, DeviceState, updated}

-- device.properties or {}
abbrev pub or_no_entries : Option Entries → Entries
or_no_entries none = no_entries
or_no_entries (some o) = o

abbrev pub as_bool : Option Json → Option Bool
as_bool none = none
as_bool (some (bool b)) = some b
as_bool (some null) = none
as_bool (some (int n)) = none
as_bool (some (float f)) = none
as_bool (some (str s)) = none
as_bool (some (array l)) = none
as_bool (some (object o)) = none

-- MotionSensor: a state without a motion value leaves what is shown.
abbrev pub motion_in : Option DeviceState → Option Bool
motion_in none = none
motion_in (some state) = state.motion_detected

unfoldable pub motion_shown : Option Bool → Option DeviceState → Option Bool
motion_shown shown state = updated shown (motion_in state)

abbrev pub contact_in : Option DeviceState → Option Bool
contact_in none = none
contact_in (some state) = state.contact_state

-- ContactSensor._is_open: what was reported, or else the device list.
unfoldable pub is_open : Option Entries → Option DeviceState → Option Bool
unfolding get
is_open properties state =
    updated (as_bool (get (or_no_entries properties) "contactState")) (contact_in state)

abbrev pub inverted : Option Bool → Option Bool
inverted none = none
inverted (some b) = some (not b)

abbrev pub privacy_in : Option DeviceState → Option Bool
privacy_in none = none
privacy_in (some state) = state.privacy_active

-- CameraPowerSwitch._is_on: privacy mode, inverted.
unfoldable pub is_on : Option Entries → Option DeviceState → Option Bool
unfolding get
is_on properties state =
    inverted (updated (as_bool (get (or_no_entries properties) "privacyActive")) (privacy_in state))

-- Whether a camera gets a power switch.
abbrev pub is_there : Option Json → Bool
is_there none = false
is_there (some j) = true

unfoldable pub has_power_switch : Option Entries → Bool
unfolding get
has_power_switch none = true
has_power_switch (some no_entries) = true
has_power_switch (some (entry k v o)) = is_there (get (entry k v o) "privacyActive")

-- BatterySensor and SignalStrengthSensor: the device list's value first, which counts when it is a whole
-- number (a Boolean is one in Python), then what is reported.
abbrev pub as_int : Option Json → Option Json
as_int none = none
as_int (some (int n)) = some (int n)
as_int (some (bool b)) = some (bool b)
as_int (some null) = none
as_int (some (float f)) = none
as_int (some (str s)) = none
as_int (some (array l)) = none
as_int (some (object o)) = none

unfoldable pub seeded_value : String → Option Entries → Option Json
unfolding get
seeded_value name properties = as_int (get (or_no_entries properties) name)

abbrev pub or_shown : Option Json → Option ℤ → Option Json
or_shown shown none = shown
or_shown shown (some n) = some (int n)

abbrev pub battery_shown : Option Json → Option DeviceState → Option Json
battery_shown shown none = shown
battery_shown shown (some state) = or_shown shown state.battery_level

abbrev pub signal_shown : Option Json → Option DeviceState → Option Json
signal_shown shown none = shown
signal_shown shown (some state) = or_shown shown state.signal_strength

-- parent_id or device_id
abbrev pub non_empty_or : Option String → String → String
non_empty_or none other = other
non_empty_or (some s) other = if str_eq s "" then other else s

abbrev pub connection_key : DeviceInfo → String
connection_key d = non_empty_or d.parent_id d.device_id

-- BasestationConnectivity: the connection of the camera's gateway.
abbrev pub as_connected : Option Bool → Option String → Option Bool
as_connected shown none = shown
as_connected shown (some state) = some (str_eq state "available")

unfoldable pub connectivity_shown : List (String × String) → DeviceInfo → Option Bool → Option Bool
unfolding lookup
connectivity_shown connections d shown = as_connected shown (lookup connections (connection_key d))

-- SirenSwitch: `siren_state == "on"`.
abbrev pub siren_shown : Option Bool → Option String → Option Bool
siren_shown shown none = shown
siren_shown shown (some state) = some (str_eq state "on")

-- SecurityModeSelect: the options stay when the location is gone, the current one does not.
unfoldable pub select_shown :
    List (String × LocationState) → String → List String → List String × Option String
unfolding lookup mode_options mode_label
select_shown locations id options = elim (lookup locations id) [
  | none ↦ (options, none)
  | some location ↦ (mode_options location, mode_label location)
]

-- round(a / b), the even neighbour when both are as near.
abbrev pub round_up : ℕ → ℕ → ℕ → ℕ
round_up quotient twice b =
    if ltb b twice then quotient + 1 else if twice == b then quotient + quotient % 2 else quotient

-- SpotlightLight: Arlo's intensity of 0 to 100 is Home Assistant's brightness of 0 to 255, in exact
-- arithmetic in place of floating point.
unfoldable pub brightness_of : ℕ → ℕ
brightness_of intensity = round_up (intensity * 255 / 100) (2 * (intensity * 255 % 100)) 100

unfoldable pub intensity_of : ℕ → ℕ
intensity_of brightness = round_up (brightness * 100 / 255) (2 * (brightness * 100 % 255)) 255

-- The part of MotionEvent that the integration reads.
pub record MotionEvent : Type 0 where
  pub event_device : String
  pub obj_category : Option String
  pub content_url : Option String
  pub thumbnail_url : Option String
  pub obj_categories : Option (List String)
  pub feed_id : Option String
  pub utc_created_date : ℤ

-- DetectionSensor: what is shown, the last event that counted, and the seconds until the reset.
pub record DetectionSensor : Type 0 where
  pub is_lit : Bool
  pub last_seen_event_key : Option String
  pub reset_in : Option ℕ

abbrev pub unlit : DetectionSensor
unlit = record { is_lit = false; last_seen_event_key = none; reset_in = none }

abbrev pub is_seen : Option String → String → Bool
is_seen none key = false
is_seen (some last) key = str_eq last key

-- One second of the reset task's sleep; a sleep of no seconds ends with the next one.
unfoldable pub pass_second : DetectionSensor → DetectionSensor
pass_second s = elim s.reset_in [
  | none ↦ s
  | some n ↦
      if leb n 1
      then record s { is_lit = false; reset_in = none }
      else record s { reset_in = some (n - 1) }
]

abbrev pub has_category : Option (List String) → String → Bool
has_category none category = false
has_category (some categories) category = contains categories category

module _ (category : String) (str_of : ℤ → String) where
  -- event.feed_id or str(event.utc_created_date)
  abbrev pub event_key : MotionEvent → String
  event_key e = non_empty_or e.feed_id (str_of e.utc_created_date)

  -- `_handle_coordinator_update`, with the timeout of the options.
  unfoldable pub handle_event : Option MotionEvent → ℕ → DetectionSensor → DetectionSensor
  unfolding contains
  handle_event none timeout s = s
  handle_event (some e) timeout s =
      if not (has_category e.obj_categories category) || is_seen s.last_seen_event_key (event_key e)
      then s
      else record {
        is_lit = true;
        last_seen_event_key = some (event_key e);
        reset_in = some timeout;
      }
