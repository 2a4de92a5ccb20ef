-- ===== src/Discovery.antt =====
-- custom_components/eisenberg/coordinator.py: the locations that `async_setup` discovers, with their modes;
-- and `get_custom_modes` of eisenberg/client.py. The validators are pydantic's.
pub mod Kept
mod Tests
use ha_eisenberg.Common.{
  [], ◌∷◌, List, Option, none, some, String, Bool, true, false, not, if◌then◌else◌,
}
use ha_eisenberg.Dicts.{lookup, put}
use ha_eisenberg.Json.{
  Json, null, bool, int, float, str, array, object, Entries, no_entries, entry, get,
}
use ha_eisenberg.Http.{
  malformed, Result, ok, err, World, Action, pure, or_raise, ◌>>=◌, ◌>>◌, exchange, is_truthy,
  entries_of, subscript, raise_for_arlo_error,
}
use ha_eisenberg.Login.{fields}
use ha_eisenberg.Modes.{
  Labels, LocationInfo, LocationState, from_info, set_mode, custom_mode_labels,
}
use ha_eisenberg.Devices.{DeviceInfo, relevant_locations}
use ha_eisenberg.Commands.{authenticated, account_request, get_locations}
use ha_eisenberg.Session.{ActiveModeState, get_active_mode, or_one, refuse_if}

abbrev pub map_option {ℓ κ} : {A : Type ℓ} {B : Type κ} → (A → B) → Option A → Option B
map_option f none = none
map_option f (some a) = some (f a)

module _ (validate_modes : Json → Option (List (String × Labels))) where
  -- custom_mode_labels(section["properties"]), or {} when there is no section.
  unfoldable pub section_modes : Json → Action (List (String × Labels))
  unfolding subscript get custom_mode_labels
  section_modes section = do
    raw ← subscript section "properties"
    or_raise (map_option custom_mode_labels (validate_modes raw)) malformed

  abbrev pub modes_of : Option Json → Action (List (String × Labels))
  modes_of none = pure []
  modes_of (some null) = pure []
  modes_of (some (bool b)) = section_modes (bool b)
  modes_of (some (int n)) = section_modes (int n)
  modes_of (some (float f)) = section_modes (float f)
  modes_of (some (str s)) = section_modes (str s)
  modes_of (some (array l)) = section_modes (array l)
  modes_of (some (object o)) = section_modes (object o)

  unfoldable pub get_custom_modes : String → Action (List (String × Labels))
  unfolding authenticated exchange get section_modes raise_for_arlo_error subscript
  get_custom_modes location_id = do
    c ← authenticated
    body ← exchange (
        account_request c "/hmsweb/automation/v3"
          (fields (("locationId", str location_id) ∷ ("revisions", str "false") ∷ [])))
    entries ← entries_of body
    refuse_if (not (is_truthy (get entries "success"))) body
    content ← subscript body "data"
    sections ← entries_of content
    modes_of (get sections "customModes")

-- A failure to read the mode, or the custom modes, is only logged.
abbrev pub with_properties :
    Option (String × List (String × String)) → LocationState → LocationState
with_properties none location = location
with_properties (some (mode, custom)) location = set_mode location mode custom

abbrev pub mode_read : LocationState → Result ActiveModeState → LocationState
mode_read location (err e) = location
mode_read location (ok state) =
    with_properties state.properties (record location { mode_revision = or_one state.revision })

abbrev pub custom_modes_read : LocationState → Result (List (String × Labels)) → LocationState
custom_modes_read location (err e) = location
custom_modes_read location (ok modes) = record location { custom_modes = modes }

module _ (validate_location : Json → Option LocationInfo)
    (validate_mode : Json → Option ActiveModeState)
    (validate_modes : Json → Option (List (String × Labels))) where
  abbrev pub custom_part : String → LocationState → World → LocationState × World
  custom_part id location w =
      let (modes, v) = get_custom_modes validate_modes id w in (custom_modes_read location modes, v)

  unfoldable pub discover_one : LocationInfo → World → LocationState × World
  unfolding get_active_mode get_custom_modes set_mode
  discover_one info w =
      let (state, v) = get_active_mode validate_mode info.info_id w in
      custom_part info.info_id (mode_read (from_info info) state) v

  unfoldable pub discover_each :
      List (String × LocationState)
      → List LocationInfo
      → World
      → List (String × LocationState) × World
  unfolding put
  discover_each locations [] w = (locations, w)
  discover_each locations (info ∷ infos) w =
      let (location, v) = discover_one info w in
      discover_each (put locations info.info_id location) infos v

  abbrev pub discovered :
      List DeviceInfo → Result (List LocationInfo) × World → List (String × LocationState) × World
  discovered devices (err e, w) = ([], w)
  discovered devices (ok infos, w) = discover_each [] (relevant_locations infos devices) w

  -- The part of `async_setup` that fills `locations`.
  unfoldable pub discover_locations :
      List DeviceInfo → World → List (String × LocationState) × World
  unfolding discover_each relevant_locations
  discover_locations devices w = discovered devices (get_locations validate_location w)
